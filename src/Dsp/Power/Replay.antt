-- ===== src/Dsp/Power/Replay.antt =====
-- Calls of `HAP_power_set` one after the other: what the history holds behind them, and what the
-- firmware answered to each.
use mathlib.Core.Path.{subst}
use mathlib.Core.List.{append_assoc}
use cdsp_peak.Base.{ℕ, ◌+◌, ◌≡◌, refl, ap, ◌∙◌, arith, true, false, List, [], ◌∷◌, ◌++◌, length}
use cdsp_peak.Base.Int.{ℤ, nonzero}
use cdsp_peak.Dsp.Power.Hap.{Request}
use cdsp_peak.Dsp.Power.{History}

-- The history behind the calls, the first one of which is made first.
unfoldable pub made : List (ℕ × Request) → History → History
made [] h = h
made (c ∷ cs) h = made cs (c ∷ h)

pub made-append :
    (cs ds : List (ℕ × Request)) (h : History) → made (cs ++ ds) h ≡ made ds (made cs h)
unfolding made
made-append [] ds h = refl
made-append (c ∷ cs) ds h = made-append cs ds (c ∷ h)

module _ (f : History → ℕ → Request → ℤ) where
  -- The firmware answers 0 to each of the calls, in the history that the calls before it left.
  unfoldable pub AllGranted : List (ℕ × Request) → History → Type 0
  AllGranted [] h = Unit {0}
  AllGranted (c ∷ cs) h = (nonzero (f h c.0 c.1) ≡ false) × AllGranted cs (c ∷ h)

  -- So many of the calls are granted, and the next one is refused with this error; the history then
  -- holds the calls up to that one.
  pub record Refused (cs : List (ℕ × Request)) (h : History) (granted : ℕ) (err : ℤ) (h' : History)
      : Type 0 where
    pub front : List (ℕ × Request)
    pub last : ℕ × Request
    pub back : List (ℕ × Request)
    pub split : cs ≡ front ++ (last ∷ back)
    pub counted : length front ≡ granted
    pub before : AllGranted front h
    pub bad : nonzero err ≡ true
    pub answered : err ≡ f (made front h) last.0 last.1
    pub calls : h' ≡ last ∷ made front h

  pub AllGranted-append :
      (cs ds : List (ℕ × Request)) (h : History)
      → AllGranted cs h
      → AllGranted ds (made cs h)
      → AllGranted (cs ++ ds) h
  unfolding AllGranted made
  AllGranted-append [] ds h a b = b
  AllGranted-append (c ∷ cs) ds h (good, a) b = (good, AllGranted-append cs ds (c ∷ h) a b)

  pub Refused-first :
      (c : ℕ × Request) (cs : List (ℕ × Request)) (h : History)
      → nonzero (f h c.0 c.1) ≡ true
      → Refused (c ∷ cs) h 0 (f h c.0 c.1) (c ∷ h)
  unfolding AllGranted made
  Refused-first c cs h e = record {
    front = [];
    last = c;
    back = cs;
    split = refl;
    counted = refl;
    before = tt;
    bad = e;
    answered = refl;
    calls = refl;
  }

  pub Refused-cons :
      (c : ℕ × Request) (cs : List (ℕ × Request)) (h : History) (granted : ℕ) (err : ℤ)
      (h' : History)
      → nonzero (f h c.0 c.1) ≡ false
      → Refused cs (c ∷ h) granted err h'
      → Refused (c ∷ cs) h (granted + 1) err h'
  unfolding AllGranted made
  Refused-cons c cs h granted err h' good r = record {
    front = c ∷ r.front;
    last = r.last;
    back = r.back;
    split = ap (λ xs. c ∷ xs) r.split;
    counted = omega (arith, r.counted);
    before = (good, r.before);
    bad = r.bad;
    answered = r.answered;
    calls = r.calls;
  }

  -- A refusal stays one in a longer list of calls.
  pub Refused-append :
      (cs ds : List (ℕ × Request)) (h : History) (granted : ℕ) (err : ℤ) (h' : History)
      → Refused cs h granted err h'
      → Refused (cs ++ ds) h granted err h'
  Refused-append cs ds h granted err h' r = record {
    front = r.front;
    last = r.last;
    back = r.back ++ ds;
    split = ap (λ xs. xs ++ ds) r.split ∙ append_assoc r.front (r.last ∷ r.back) ds;
    counted = r.counted;
    before = r.before;
    bad = r.bad;
    answered = r.answered;
    calls = r.calls;
  }

  -- A refusal behind calls that were all granted
  pub append-Refused :
      (cs ds : List (ℕ × Request)) (h : History) (granted : ℕ) (err : ℤ) (h' : History)
      → AllGranted cs h
      → Refused ds (made cs h) granted err h'
      → Refused (cs ++ ds) h (length cs + granted) err h'
  unfolding AllGranted made
  append-Refused [] ds h granted err h' all r = subst (λ n. Refused ds h n err h') (omega arith) r
  append-Refused (c ∷ cs) ds h granted err h' (good, all) r =
      subst (λ n. Refused (c ∷ cs ++ ds) h n err h') (omega arith)
        (Refused-cons c (cs ++ ds) h _ err h' good
          (append-Refused cs ds (c ∷ h) granted err h' all r))
