-- ===== src/Host/Main/Plan/Begun.antt =====
-- Whatever benchmark fails in `main` of host/cdsp_peak.c, those that ran are the beginning of the plan.
use mathlib.Core.Path.{subst}
use cdsp_peak.Base.{
  ◌≡◌, inl, inr, Bool, true, false, List, [], ◌∷◌, ◌++◌, if◌then◌else◌, Bool-cases, codes,
}
use cdsp_peak.Base.Int.{ℤ, nonzero}
use cdsp_peak.Aee.{aee_success}
use cdsp_peak.Host.Filter.{scenario_enabled}
use cdsp_peak.Host.Scenarios.{compute_scenarios, hmx_scenarios, mem_scenarios}
use cdsp_peak.Host.Main.{benchmarks}
use cdsp_peak.Host.Main.System.{Driver, rpc_null, Sys}
use cdsp_peak.Host.Main.Acquire.{no_hmx}
use cdsp_peak.Host.Main.Jobs.{Bench, run_job, compute_loop, hmx_loop, mem_loop}
use cdsp_peak.Host.Main.Plan.{
  ran_of, planned_null, planned_compute, planned_hmx, planned_mem, planned,
}
use cdsp_peak.Host.Main.Plan.Followed.{Ran, asked, compute_loop-Ran, hmx_loop-Ran, plan_from_lem}
use cdsp_peak.Host.Main.Plan.Partial.{
  Begins, Begins-none, Begins-append, append-Begins, Began, run_job-Began, compute_loop-Began,
  hmx_loop-Began, mem_loop-Began,
}
use cdsp_peak.Host.Main.Plan.Completed.{null-Ran}

module _ (d : Driver) where
  bad : nonzero d.aee.efailed ≡ true
  bad = d.aee.efailed_error

  bad' : nonzero d.errno.enomem ≡ true
  bad' = d.errno.enomem_error

  null-Began :
      (b : Bench) (sys : Sys d) (on : Bool)
      → Began d b bad bad'
          (if on then rpc_null ∷ [] else [])
          sys
          (if on then run_job d b no_hmx rpc_null sys else (aee_success, sys)).1
  null-Began b sys true = run_job-Began d b bad bad' no_hmx rpc_null sys
  null-Began b sys false = Begins-none [] (ran_of sys.trace)

  -- What comes behind jobs that all succeeded
  behind :
      (b : Bench) (js ks : List _) (sys sys' : Sys d) (r : ℤ × Sys d)
      → nonzero r.0 ≡ false
      → Ran d b js sys r
      → Began d b bad bad' ks r.1 sys'
      → Began d b bad bad' (js ++ ks) sys sys'
  behind b js ks sys sys' r e f g =
      append-Begins js ks (ran_of sys.trace) (ran_of sys'.trace)
        (subst (λ before. Begins ks before (ran_of sys'.trace)) (f e) g)

  pub benchmarks-Began :
      (b : Bench) (arch : ℤ) (sys : Sys d)
      → Begins (planned b.opt arch) (ran_of sys.trace) (ran_of (benchmarks d b arch sys).2.trace)
  unfolding benchmarks
  benchmarks-Began b arch sys =
      let on = scenario_enabled b.opt (codes "rpc-null") in
      let r₁ = if on then run_job d b no_hmx rpc_null sys else (aee_success, sys) in
      let r₂ = compute_loop d b no_hmx compute_scenarios 0 r₁.1 in
      let r₃ = hmx_loop d b arch hmx_scenarios no_hmx r₂.1 in
      let r₄ = mem_loop d b r₃.1 mem_scenarios r₃.2 in
      let null_jobs = planned_null b.opt in
      let compute_jobs = planned_compute (asked d b) in
      let hmx_jobs = planned_hmx b.opt arch hmx_scenarios in
      let mem_jobs = planned_mem b.opt mem_scenarios in
      let h₁ = null-Ran d bad bad' b sys on in
      let h₂ : Ran d b compute_jobs r₁.1 r₂ =
        subst (λ js. Ran d b js r₁.1 r₂) (plan_from_lem d b)
          (compute_loop-Ran d b no_hmx compute_scenarios 0 r₁.1 bad) in
      let h₃ = hmx_loop-Ran d b arch hmx_scenarios no_hmx r₂.1 bad bad' in
      let g₂ : Began d b bad bad' compute_jobs r₁.1 r₂.1 =
        subst (λ js. Began d b bad bad' js r₁.1 r₂.1) (plan_from_lem d b)
          (compute_loop-Began d b bad bad' no_hmx compute_scenarios 0 r₁.1) in
      let g₃ = hmx_loop-Began d b bad bad' arch hmx_scenarios no_hmx r₂.1 in
      let g₄ = mem_loop-Began d b bad bad' r₃.1 mem_scenarios r₃.2 in
      elim (Bool-cases (nonzero r₁.0)) [
        | inl e ↦
            rw (benchmarks, e)
              (Begins-append null_jobs (compute_jobs ++ (hmx_jobs ++ mem_jobs)) (ran_of sys.trace)
                (ran_of r₁.1.trace) (null-Began b sys on))
        | inr e ↦ elim (Bool-cases (nonzero r₂.0)) [
          | inl f ↦
              rw (benchmarks, e, f)
                (behind b null_jobs (compute_jobs ++ (hmx_jobs ++ mem_jobs)) sys r₂.1 r₁ e h₁ (
                  Begins-append compute_jobs (hmx_jobs ++ mem_jobs) (ran_of r₁.1.trace)
                    (ran_of r₂.1.trace) g₂))
          | inr f ↦ elim (Bool-cases (nonzero r₃.0)) [
            | inl g ↦
                let more =
                  Begins-append hmx_jobs mem_jobs (ran_of r₂.1.trace) (ran_of r₃.2.trace) g₃ in
                rw (benchmarks, e, f, g)
                  (behind b null_jobs (compute_jobs ++ (hmx_jobs ++ mem_jobs)) sys r₃.2 r₁ e h₁
                    (behind b compute_jobs (hmx_jobs ++ mem_jobs) r₁.1 r₃.2 r₂ f h₂ more))
            | inr g ↦
                let more = behind b hmx_jobs mem_jobs r₂.1 r₄.1 (r₃.0, r₃.2) g h₃ g₄ in
                rw (benchmarks, e, f, g)
                  (behind b null_jobs (compute_jobs ++ (hmx_jobs ++ mem_jobs)) sys r₄.1 r₁ e h₁
                    (behind b compute_jobs (hmx_jobs ++ mem_jobs) r₁.1 r₄.1 r₂ f h₂ more))
          ]
        ]
      ]
