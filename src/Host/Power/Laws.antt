-- ===== src/Host/Power/Laws.antt =====
-- `apply_power_config` over the `cdsp_peak_set_power` of the DSP.
use Prim.Native.Nat.{bit_or}
use native.Mathlib.Nat.{zero-add}
use cdsp_peak.Base.{
  ℕ, ◌≡◌, ◌<◌, ◌⊎◌, inl, inr, refl, sym, ap, ap₂, ◌∙◌, arith, Bool, ◌++◌, true, false, not, Option,
  none, some, List, [], ◌∷◌, length, leb, ◌==◌, if◌then◌else◌, Bool-cases,
}
use mathlib.Core.Path.{subst}
use cdsp_peak.Base.Int.{ℤ, pos, nonzero}
use cdsp_peak.Aee.{AeeCodes, aee_success}
use cdsp_peak.Dsp.Power.Hap.{Request}
use cdsp_peak.Dsp.Power.{History, Platform, Outs, outs}
use cdsp_peak.Dsp.Power.Replay.{
  made, made-append, AllGranted, AllGranted-append, Refused, Refused-append, append-Refused,
}
use cdsp_peak.Dsp.Power.Votes.{granted_mask, max_requests, votes_of, set_power-Outcome}
use cdsp_peak.Host.Options.{power_max}
use cdsp_peak.Host.Power.{SetPower, power_loop, apply_power_config}

-- The DSP's handler as the host calls it.
abbrev pub remote_set_power : AeeCodes → Platform → SetPower History
remote_set_power codes platform handle mode h =
    let (ret, o, h') = cdsp_peak.Dsp.Power.set_power codes platform handle mode true h in
    (ret, elim o as (λ _. Outs) [ none ↦ outs 0 0 (pos 0) | some o' ↦ o' ], h')

-- The requests of one handle.
abbrev pub votes : ℕ → ℕ
votes hvx_arch = if leb 75 hvx_arch then 5 else 4

bit_or-votes :
    (hvx_arch : ℕ)
    → bit_or (granted_mask (votes hvx_arch)) (granted_mask (votes hvx_arch))
      ≡ granted_mask (votes hvx_arch)
bit_or-votes hvx_arch = elim (Bool-cases (leb 75 hvx_arch)) [
  | inl e ↦ rw e refl
  | inr e ↦ rw e refl
]

zero_bit_or-votes :
    (hvx_arch : ℕ) → bit_or 0 (granted_mask (votes hvx_arch)) ≡ granted_mask (votes hvx_arch)
zero_bit_or-votes hvx_arch = elim (Bool-cases (leb 75 hvx_arch)) [
  | inl e ↦ rw e refl
  | inr e ↦ rw e refl
]

-- The requests of every handle, handle by handle.
unfoldable pub votes_of_all : ℕ → List ℕ → List (ℕ × Request)
votes_of_all hvx_arch [] = []
votes_of_all hvx_arch (handle ∷ handles) =
    votes_of handle (max_requests hvx_arch) ++ votes_of_all hvx_arch handles

length-max_requests : (hvx_arch : ℕ) → length (max_requests hvx_arch) ≡ votes hvx_arch
length-max_requests hvx_arch = ground arith

module _ (codes : AeeCodes) (platform : Platform) {f : History → ℕ → Request → ℤ}
    (present : platform.hap_power_set ≡ some f) where
  abbrev call : SetPower History
  call = remote_set_power codes platform

  -- All of these calls are granted and made, in order, and the mask is this one; or one of them is
  -- refused, its error is returned with an empty mask, and no call is made behind it.
  abbrev pub IsApplied : ℕ → List (ℕ × Request) → History → ℤ × ℕ × History → Type 0
  IsApplied mask cs h r =
      ((r.0 ≡ aee_success) × (r.1 ≡ mask) × AllGranted f cs h × (r.2 ≡ made cs h))
      ⊎ ((r.1 ≡ 0) × ((granted : ℕ) × Refused f cs h granted r.0 r.2))

  IsApplied-append :
      (mask : ℕ) (cs ds : List (ℕ × Request)) (h : History) (r : ℤ × ℕ × History)
      → AllGranted f cs h
      → IsApplied mask ds (made cs h) r
      → IsApplied mask (cs ++ ds) h r
  IsApplied-append mask cs ds h r all (inl (ok, same, later, calls)) =
      inl (ok, same, AllGranted-append f cs ds h all later, calls ∙ sym (made-append cs ds h))
  IsApplied-append mask cs ds h r all (inr (empty, (granted, refused))) =
      inr (empty, (_, append-Refused f cs ds h granted r.0 r.2 all refused))

  -- What the loop does with the answer of one call that returned success.
  abbrev after_call : Outs → History → ℤ × ℕ × History → ℤ × ℕ × History
  after_call o h' rest =
      if not (o.failed_step == 0)
      then (if nonzero o.failed_error then o.failed_error else codes.efailed, 0, h')
      else rest

  after_call_failed :
      (o : Outs) (h' : History) (rest : ℤ × ℕ × History)
      → 0 < o.failed_step
      → nonzero o.failed_error ≡ true
      → after_call o h' rest ≡ (o.failed_error, 0, h')
  after_call_failed o h' rest low bad =
      let e : (o.failed_step == 0) ≡ false = ground arith in
      ap₂
        (λ (a b : Bool).
          if not a then (if b then o.failed_error else codes.efailed, 0, h') else rest)
        e bad

  after_call_granted :
      (o : Outs) (h' : History) (rest : ℤ × ℕ × History)
      → o.failed_step ≡ 0
      → after_call o h' rest ≡ rest
  after_call_granted o h' rest step =
      ap
        (λ (n : ℕ).
          if not (n == 0)
          then (if nonzero o.failed_error then o.failed_error else codes.efailed, 0, h')
          else rest)
        step

  power_loop-after_call :
      (handle : ℕ) (handles : List ℕ) (u : ℕ) (h : History) (o : Outs) (h' : History)
      → cdsp_peak.Dsp.Power.set_power codes platform handle (pos 1) true h
        ≡ (aee_success, some o, h')
      → power_loop codes History call (handle ∷ handles) (pos 1) u h
        ≡ after_call o h'
            (power_loop codes History call handles (pos 1) (bit_or u o.applied_mask) h')
  unfolding power_loop
  power_loop-after_call handle handles u h o h' run =
      let answer : call handle (pos 1) h ≡ (aee_success, o, h') =
        ap
          (λ (r : ℤ × Option Outs × History).
            (r.0, elim r.1 as (λ _. Outs) [ none ↦ outs 0 0 (pos 0) | some o' ↦ o' ], r.2))
          run in
      ap
        (λ (r : ℤ × Outs × History).
          if nonzero r.0
          then (r.0, 0, r.2)
          else after_call r.1 r.2
              (power_loop codes History call handles (pos 1) (bit_or u r.1.applied_mask) r.2))
        answer

  -- The first handle, given what the loop does behind its granted votes.
  power_loop_first :
      (handle : ℕ) (handles : List ℕ) (u : ℕ) (h : History) (cs : List (ℕ × Request))
      → let n = votes platform.hvx_arch in
        let first = votes_of handle (max_requests platform.hvx_arch) in
        ((o : Outs)
          → o.applied_mask ≡ granted_mask n
          → IsApplied (granted_mask n) cs (made first h) (
              power_loop codes History call handles
                (pos 1)
                (bit_or u o.applied_mask)
                (made first h)))
        → IsApplied
            (granted_mask n)
            (first ++ cs)
            h
            (power_loop codes History call (handle ∷ handles) (pos 1) u h)
  power_loop_first handle handles u h cs behind =
      let arch = platform.hvx_arch in
      let (o, h', run, out) = set_power-Outcome codes platform handle h present in
      let mask = granted_mask (votes arch) in
      let first = votes_of handle (max_requests arch) in
      let rest : History → ℤ × ℕ × History =
        λ t. power_loop codes History call handles (pos 1) (bit_or u o.applied_mask) t in
      subst (IsApplied mask (first ++ cs) h)
        (sym (power_loop-after_call handle handles u h o h' run))
        (elim out [
          | inl (step, err, granted, all, calls) ↦
              let later =
                behind o (granted ∙ ap granted_mask (zero-add _ ∙ length-max_requests arch)) in
              subst (IsApplied mask (first ++ cs) h)
                (sym (after_call_granted o h' (rest h') step ∙ ap rest calls))
                (IsApplied-append mask first cs h _ all later)
          | inr (granted, step, mask', refused) ↦
              subst (IsApplied mask (first ++ cs) h)
                (sym (after_call_failed o h' (rest h') (omega arith) refused.bad))
                (inr (refl, (granted, Refused-append f first cs h granted _ _ refused)))
        ])

  power_loop-IsApplied :
      (handle : ℕ) (handles : List ℕ) (u : ℕ) (h : History)
      → let mask = granted_mask (votes platform.hvx_arch) in
        bit_or u mask ≡ mask
        → IsApplied mask
            (votes_of_all platform.hvx_arch (handle ∷ handles))
            h
            (power_loop codes History call (handle ∷ handles) (pos 1) u h)
  unfolding power_loop votes_of_all made AllGranted
  power_loop-IsApplied handle [] u h absorbed =
      power_loop_first handle [] u h []
        (λ o granted. inl (refl, ap (bit_or u) granted ∙ absorbed, tt, refl))
  power_loop-IsApplied handle (next ∷ handles) u h absorbed =
      let mask = granted_mask (votes platform.hvx_arch) in
      power_loop_first handle (next ∷ handles) u h _ (λ o granted.
        let joined : bit_or u o.applied_mask ≡ mask = ap (bit_or u) granted ∙ absorbed in
        let absorbed' : bit_or (bit_or u o.applied_mask) mask ≡ mask =
          ap (λ x. bit_or x mask) joined ∙ bit_or-votes platform.hvx_arch in
        power_loop-IsApplied next handles (bit_or u o.applied_mask) _ absorbed')

  -- With `HAP_power_set` there, the maximal mode over one handle or more makes the 4 requests (5 from
  -- v75 on) of each handle, in order, with that handle as context. Either the firmware grants all of
  -- them; then it returns success, the union of the masks has a one for each request, and the history
  -- holds just these calls. Or one of them is refused, behind others that were all granted; then it
  -- returns that error and an empty mask, and no call is made behind the refused one.
  pub apply_power_config-IsApplied :
      (handle : ℕ) (handles : List ℕ) (h : History)
      → IsApplied
          (granted_mask (votes platform.hvx_arch))
          (votes_of_all platform.hvx_arch (handle ∷ handles))
          h
          (apply_power_config codes History call (handle ∷ handles) power_max h)
  unfolding apply_power_config
  apply_power_config-IsApplied handle handles h =
      power_loop-IsApplied handle handles 0 h (zero_bit_or-votes platform.hvx_arch)
