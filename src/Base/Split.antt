-- ===== src/Base/Split.antt =====
-- The last place of a byte in a text, as `strrchr` finds it.
use Prim.Native.Nat.{ℕ}
use mathlib.Core.Path.{◌≡◌, refl, ap}
use mathlib.Core.Logic.{inl, inr}
use mathlib.Core.Bool.{true, false}
use mathlib.Core.Option.{Option, none, some}
use mathlib.Core.List.{List, [], ◌∷◌, ◌++◌}
use native.Mathlib.Omega.{arith}
use cdsp_peak.Base.Tests.{◌==◌, if◌then◌else◌, Bool-cases}
use cdsp_peak.Base.Lists.{All}

abbrev split_cons : ℕ → ℕ → List ℕ → Option (List ℕ × List ℕ) → Option (List ℕ × List ℕ)
split_cons separator c cs (some (before, behind)) = some (c ∷ before, behind)
split_cons separator c cs none = if c == separator then some ([], cs) else none

-- What stands before and behind the last separator; `none` where there is none.
unfoldable pub split_last : ℕ → List ℕ → Option (List ℕ × List ℕ)
split_last separator [] = none
split_last separator (c ∷ cs) = split_cons separator c cs (split_last separator cs)

abbrev pub NoSeparator : ℕ → List ℕ → Type 0
NoSeparator separator text = All (λ c. (c == separator) ≡ false) text

-- A text that is cut at its last separator.
abbrev pub IsSplit : ℕ → List ℕ → List ℕ × List ℕ → Type 0
IsSplit separator text (before, behind) =
    (text ≡ before ++ (separator ∷ behind)) × NoSeparator separator behind

abbrev pub SplitOutcome : ℕ → List ℕ → Option (List ℕ × List ℕ) → Type 0
SplitOutcome separator text none = NoSeparator separator text
SplitOutcome separator text (some parts) = IsSplit separator text parts

split_cons-SplitOutcome :
    (separator c : ℕ) (cs : List ℕ) (o : Option (List ℕ × List ℕ))
    → SplitOutcome separator cs o
    → SplitOutcome separator (c ∷ cs) (split_cons separator c cs o)
split_cons-SplitOutcome separator c cs (some (before, behind)) h = (ap (λ xs. c ∷ xs) h.0, h.1)
split_cons-SplitOutcome separator c cs none h = elim (Bool-cases (c == separator)) [
  | inl e ↦ let z : c ≡ separator = ground arith in rw e (ap (λ x. x ∷ cs) z, h)
  | inr e ↦ rw e (e, h)
]

pub split_last_lem :
    (separator : ℕ) (text : List ℕ) → SplitOutcome separator text (split_last separator text)
unfolding split_last
split_last_lem separator [] = _
split_last_lem separator (c ∷ cs) =
    split_cons-SplitOutcome separator c cs (split_last separator cs) (split_last_lem separator cs)

split_last-none :
    (separator : ℕ) (text : List ℕ) → NoSeparator separator text → split_last separator text ≡ none
unfolding split_last
split_last-none separator [] h = refl
split_last-none separator (c ∷ cs) h = rw (split_last-none separator cs h.1, h.0) refl

self_equal : (n : ℕ) → (n == n) ≡ true
self_equal n = ground arith

pub split_last-append :
    (separator : ℕ) (before behind : List ℕ)
    → NoSeparator separator behind
    → split_last separator (before ++ (separator ∷ behind)) ≡ some (before, behind)
unfolding split_last
split_last-append separator [] behind h =
    rw (split_last-none separator behind h, self_equal separator) refl
split_last-append separator (c ∷ before) behind h =
    ap (split_cons separator c (before ++ (separator ∷ behind)))
      (split_last-append separator before behind h)
