-- ===== src/Dsp/Power/Votes.antt =====
-- The votes as a list that is worked off up to the first failure: what `cdsp_peak_set_power`
-- promises, apart from how it nests its tests.
use cdsp_peak.Base.{
  ℕ, ◌+◌, ◌-◌, ◌^◌, ◌≡◌, refl, arith, sym, Bool, true, false, some, List, [], ◌∷◌, length, map, leb,
  ap, ◌∙◌, ◌⊎◌, inl, inr, Bool-cases, if◌then◌else◌,
}
use mathlib.Core.Path.{subst}
use cdsp_peak.Base.Int.{ℤ, pos, nonzero}
use cdsp_peak.Aee.{AeeCodes, aee_success}
use cdsp_peak.Dsp.Power.Hap.{Request}
use cdsp_peak.Dsp.Power.Replay.{AllGranted, made, Refused, Refused-cons, Refused-first}
use cdsp_peak.Dsp.Power.{
  History, Platform, Outs, outs, compute_client_request, dcvs_max_request, hvx_power_request,
  hmx_power_request, hmx_v2_power_request, apply_power_request, call_hap, set_compute_client,
  set_dcvs_max, set_hvx_power, set_hmx_power, set_hmx_v2_power, vote_hmx_v2, vote_max, set_power,
}

-- The requests of the maximal mode in order; the last one exists from v75 on.
abbrev pub max_requests : ℕ → List Request
max_requests hvx_arch =
    compute_client_request
    ∷ dcvs_max_request
    ∷ hvx_power_request
    ∷ hmx_power_request
    ∷ (if leb 75 hvx_arch then hmx_v2_power_request ∷ [] else [])

-- Of `n` requests granted, the mask has the `n` low bits.
abbrev pub granted_mask : ℕ → ℕ
granted_mask n = 2 ^ n - 1

-- The requests made by one handle.
abbrev pub votes_of : ℕ → List Request → List (ℕ × Request)
votes_of context rs = map (λ r. (context, r)) rs

module _ (codes : AeeCodes) (platform : Platform) (context : ℕ) where
  -- Requests are made in order until one fails, with `n` granted before. A failed one is reported
  -- by its position, counted from 1.
  unfoldable pub work_off : List Request → ℕ → History → Outs × History
  work_off [] n h = (outs (granted_mask n) 0 (pos 0), h)
  work_off (r ∷ rs) n h =
      let (err, h') = apply_power_request codes platform context r h in
      let rest = work_off rs (n + 1) h' in
      if nonzero err then (outs (granted_mask n) (n + 1) err, h') else rest

  -- `cdsp_peak_set_power` with its out pointers given: mode 0 requests nothing, mode 1 works off
  -- the list of requests, and returns success whatever fails on the way; any other mode is refused.
  pub set_power-work_off :
      (mode : ℕ) (h : History)
      → (set_power codes platform context (pos 1) true h ≡ (
          let (o, h') = work_off (max_requests platform.hvx_arch) 0 h in (aee_success, some o, h')))
        × (set_power codes platform context (pos 0) true h
            ≡ (aee_success, some (outs 0 0 (pos 0)), h))
        × (set_power codes platform context (pos (mode + 2)) true h
            ≡ (codes.ebadparm, some (outs 0 0 (pos 0)), h))
  unfolding set_power vote_max vote_hmx_v2 work_off set_compute_client set_dcvs_max set_hvx_power
      set_hmx_power set_hmx_v2_power
  set_power-work_off mode h = (ground arith, refl, ground arith)

  -- What `rs` worked off in `h`, behind `n` granted requests, comes to with the firmware `f`: all
  -- are granted, or the first one that is refused ends it.
  abbrev pub Outcome :
      (History → ℕ → Request → ℤ) → List Request → ℕ → History → Outs × History → Type 0
  Outcome f rs n h (o, h') =
      ((o.failed_step ≡ 0)
        × (o.failed_error ≡ pos 0)
        × (o.applied_mask ≡ granted_mask (n + length rs))
        × AllGranted f (votes_of context rs) h
        × (h' ≡ made (votes_of context rs) h))
      ⊎ ((granted : ℕ) × (o.failed_step ≡ n + granted + 1)
          × (o.applied_mask ≡ granted_mask (n + granted))
          × Refused f (votes_of context rs) h granted o.failed_error h')

  Outcome-suc :
      (f : History → ℕ → Request → ℤ) (r : Request) (rs : List Request) (n : ℕ) (h : History)
      (result : Outs × History)
      → nonzero (f h context r) ≡ false
      → Outcome f rs (n + 1) ((context, r) ∷ h) result
      → Outcome f (r ∷ rs) n h result
  unfolding AllGranted made
  Outcome-suc f r rs n h result good (inl (step, err, mask, all, calls)) =
      inl (step, err, mask ∙ ap granted_mask (omega arith), (good, all), calls)
  Outcome-suc f r rs n h result good (inr (granted, step, mask, refused)) = inr (
    granted + 1,
    omega arith,
    mask ∙ ap granted_mask (omega arith),
    Refused-cons f (context, r) (votes_of context rs) h granted _ _ good refused,
  )

  apply_present :
      {f : History → ℕ → Request → ℤ} (r : Request) (h : History)
      → platform.hap_power_set ≡ some f
      → apply_power_request codes platform context r h ≡ (f h context r, (context, r) ∷ h)
  unfolding apply_power_request
  apply_present r h e = ap (λ hap. call_hap codes platform hap context r h) e

  -- One step with the firmware's answer
  work_off_cons :
      {f : History → ℕ → Request → ℤ} (r : Request) (rs : List Request) (n : ℕ) (h : History)
      → platform.hap_power_set ≡ some f
      → let err = f h context r in
        let h' = (context, r) ∷ h in
        work_off (r ∷ rs) n h
        ≡ (if nonzero err then (outs (granted_mask n) (n + 1) err, h') else work_off rs (n + 1) h')
  unfolding work_off
  work_off_cons r rs n h e =
      ap
        (λ (p : ℤ × History).
          if nonzero p.0 then (outs (granted_mask n) (n + 1) p.0, p.1) else work_off rs (n + 1) p.1)
        (apply_present r h e)

  work_off-Outcome :
      {f : History → ℕ → Request → ℤ} (rs : List Request) (n : ℕ) (h : History)
      → platform.hap_power_set ≡ some f
      → Outcome f rs n h (work_off rs n h)
  unfolding work_off AllGranted made
  work_off-Outcome [] n h e = inl (refl, refl, ap granted_mask (omega arith), tt, refl)
  work_off-Outcome {f} (r ∷ rs) n h e =
      let err = f h context r in
      let stopped : Outs × History = (outs (granted_mask n) (n + 1) err, (context, r) ∷ h) in
      let on = work_off rs (n + 1) ((context, r) ∷ h) in
      let step = λ (b : Bool). Outcome f (r ∷ rs) n h (if b then stopped else on) in
      subst (Outcome f (r ∷ rs) n h) (sym (work_off_cons r rs n h e))
        (elim (Bool-cases (nonzero err)) [
          | inl bad ↦
              let refused = Refused-first f (context, r) (votes_of context rs) h bad in
              subst step (sym bad) (inr (0, omega arith, ap granted_mask (omega arith), refused))
          | inr good ↦
              subst step (sym good)
                (Outcome-suc f r rs n h on good (work_off-Outcome rs (n + 1) ((context, r) ∷ h) e))
        ])

  -- With `HAP_power_set` there, the maximal mode makes its 4 requests (5 from v75 on) with the handle
  -- as context, each in the history that those before it left. Either `HAP_power_set` answers 0 to
  -- every one of them; then no failure is reported, the mask has a one for each, and all of them are
  -- in the history, in order. Or it answers 0 to the first few and then an error; then that error and
  -- that request's position, counted from 1, are reported, the mask has a one for each request before
  -- it, and the requests up to it are in the history, in order, and no others.
  pub set_power-Outcome :
      {f : History → ℕ → Request → ℤ} (h : History)
      → platform.hap_power_set ≡ some f
      → (o : Outs) × (h' : History) × (set_power codes platform context (pos 1) true h
          ≡ (aee_success, some o, h'))
        × Outcome f (max_requests platform.hvx_arch) 0 h (o, h')
  set_power-Outcome h e =
      let r = work_off (max_requests platform.hvx_arch) 0 h in
      (
        r.0,
        r.1,
        (set_power-work_off 0 h).0,
        work_off-Outcome (max_requests platform.hvx_arch) 0 h e,
      )
