-- ===== src/Host/Main/Plan/Followed.antt =====
-- The loops of host/cdsp_peak.c's `main` run what is planned, where no benchmark fails.

use cdsp_peak.Base.{
  ℕ, zero, suc, ◌≡◌, ◌∙◌, refl, ap, inl, inr, Bool, true, false, Option, none, some, List, [], ◌∷◌,
  ◌++◌, map, drop, ◌==◌, if◌then◌else◌, codes, All, Bool-cases,
}
use cdsp_peak.Base.Int.{ℤ, pos, negsuc, nonzero}
use cdsp_peak.Aee.{aee_success}
use cdsp_peak.Host.Filter.{scenario_enabled}
use cdsp_peak.Host.Scenarios.{
  ComputeScenario, HmxScenario, MemScenario, compute_scenarios, hmx_scenario_enabled,
}
use cdsp_peak.Host.Main.System.{Driver, HmxBuffers, Job, compute, compute_group, hmx, mem, Sys}
use cdsp_peak.Host.Main.Acquire.{rpcmem_alloc}
use cdsp_peak.Host.Main.Jobs.{
  Bench, calibrated, finished, run_job, skipped, job_of, completed_with, compute_loop, alloc_hmx,
  some_missing, hmx_round, hmx_loop, mem_loop,
}
use cdsp_peak.Host.Main.Plan.{
  ran_of, then_ran, chosen, ungrouped, some_of_group, planned_compute, planned_hmx, planned_mem,
}

nonzero-false : (x : ℤ) → nonzero x ≡ false → x ≡ aee_success
nonzero-false (pos zero) e = refl
nonzero-false (pos (suc n)) e = absurd cc
nonzero-false (negsuc n) e = absurd cc

module _ (d : Driver) (b : Bench) where
  -- Where there is no error, the jobs ran between two states.
  abbrev pub Ran : List Job → Sys d → ℤ × Sys d → Type 0
  Ran jobs sys r = nonzero r.0 ≡ false → ran_of r.1.trace ≡ then_ran jobs (ran_of sys.trace)

  finished-Ran :
      (job : Job) (sys : Sys d) (r : Option (ℤ × List ℕ × d.State))
      → nonzero d.aee.efailed ≡ true
      → Ran (job ∷ []) sys (finished d b job sys r)
  finished-Ran job sys none bad e = absurd cc
  finished-Ran job sys (some (err, counts, w)) bad e = rw (nonzero-false err e) refl

  pub run_job-Ran :
      (bufs : HmxBuffers) (job : Job) (sys : Sys d)
      → nonzero d.aee.efailed ≡ true
      → Ran (job ∷ []) sys (run_job d b bufs job sys)
  unfolding run_job
  run_job-Ran bufs job sys bad = finished-Ran job sys (calibrated d b bufs job sys.world) bad

  -- A job, and what comes behind it if there is no error
  first_Ran :
      (job : Job) (jobs : List Job) (err : ℤ) (sys sys' : Sys d) (rest : ℤ × Sys d)
      → Ran (job ∷ []) sys (err, sys')
      → Ran jobs sys' rest
      → Ran (job ∷ jobs) sys (if nonzero err then (err, sys') else rest)
  first_Ran job jobs err sys sys' rest g h = elim (Bool-cases (nonzero err)) [
    | inl e ↦ rw e (λ f. absurd cc)
    | inr e ↦ rw e (λ f. h f ∙ ap (then_ran jobs) (g e))
  ]

  pub mem_loop-Ran :
      (bufs : HmxBuffers) (scs : List MemScenario) (sys : Sys d)
      → nonzero d.aee.efailed ≡ true
      → Ran (planned_mem b.opt scs) sys (mem_loop d b bufs scs sys)
  unfolding mem_loop
  mem_loop-Ran bufs [] sys bad = λ e. refl
  mem_loop-Ran bufs (sc ∷ scs) sys bad = elim (Bool-cases (scenario_enabled b.opt sc.name)) [
    | inr e ↦ rw (mem_loop, e) (mem_loop-Ran bufs scs sys bad)
    | inl e ↦
        let (err, sys') = run_job d b bufs (mem sc) sys in
        rw (mem_loop, e)
          (first_Ran (mem sc) (planned_mem b.opt scs) err sys sys' (mem_loop d b bufs scs sys')
            (run_job-Ran bufs (mem sc) sys bad) (mem_loop-Ran bufs scs sys' bad))
  ]

  pub alloc_hmx-Ran :
      (arch : ℤ) (sys : Sys d) → ran_of (alloc_hmx d b arch sys).1.trace ≡ ran_of sys.trace
  unfolding alloc_hmx rpcmem_alloc
  alloc_hmx-Ran arch sys = refl

  -- The row's error and state
  abbrev pub outcome : ℤ × HmxBuffers × Sys d → ℤ × Sys d
  outcome r = (r.0, r.2)

  pub hmx_round-Ran :
      (arch : ℤ) (sc : HmxScenario) (bufs : HmxBuffers) (sys : Sys d)
      → nonzero d.aee.efailed ≡ true
      → nonzero d.errno.enomem ≡ true
      → Ran (hmx sc ∷ []) sys (outcome (hmx_round d b arch sc bufs sys))
  unfolding hmx_round
  hmx_round-Ran arch sc bufs sys bad bad' = elim (Bool-cases (bufs.activation == 0)) [
    | inr e ↦ rw (hmx_round, e) (run_job-Ran bufs (hmx sc) sys bad)
    | inl e ↦
        let (bufs', sys') = alloc_hmx d b arch sys in
        elim (Bool-cases (some_missing d b bufs')) [
          | inl f ↦ rw (hmx_round, e, f) (λ z. absurd cc)
          | inr f ↦
              rw (hmx_round, e, f)
                (λ z.
                  run_job-Ran bufs' (hmx sc) sys' bad z
                  ∙ ap (then_ran (hmx sc ∷ [])) (alloc_hmx-Ran arch sys))
        ]
  ]

  pub hmx_loop-Ran :
      (arch : ℤ) (scs : List HmxScenario) (bufs : HmxBuffers) (sys : Sys d)
      → nonzero d.aee.efailed ≡ true
      → nonzero d.errno.enomem ≡ true
      → Ran (planned_hmx b.opt arch scs) sys (outcome (hmx_loop d b arch scs bufs sys))
  unfolding hmx_loop
  hmx_loop-Ran arch [] bufs sys bad bad' = λ e. refl
  hmx_loop-Ran arch (sc ∷ scs) bufs sys bad bad' =
      elim (Bool-cases (hmx_scenario_enabled b.opt sc arch)) [
        | inr e ↦ rw (hmx_loop, e) (hmx_loop-Ran arch scs bufs sys bad bad')
        | inl e ↦
            let r = hmx_round d b arch sc bufs sys in
            let row = hmx_round-Ran arch sc bufs sys bad bad' in
            elim (Bool-cases (nonzero r.0)) [
              | inl f ↦ rw (hmx_loop, e, f) (λ z. absurd cc)
              | inr f ↦
                  rw (hmx_loop, e, f)
                    (λ z.
                      hmx_loop-Ran arch scs r.1 r.2 bad bad' z
                      ∙ ap (then_ran (planned_hmx b.opt arch scs)) (row f))
            ]
      ]

  -- The jobs of the loop over the compute rows that are left.
  abbrev pub plan_from : List ComputeScenario → ℕ → List Job
  plan_from [] completed = []
  plan_from (sc ∷ scs) completed =
      if skipped d b sc completed
      then plan_from scs completed
      else job_of d b sc ∷ plan_from scs (completed_with d b sc completed)

  pub compute_loop-Ran :
      (bufs : HmxBuffers) (scs : List ComputeScenario) (completed : ℕ) (sys : Sys d)
      → nonzero d.aee.efailed ≡ true
      → Ran (plan_from scs completed) sys (compute_loop d b bufs scs completed sys)
  unfolding compute_loop
  compute_loop-Ran bufs [] completed sys bad = λ e. refl
  compute_loop-Ran bufs (sc ∷ scs) completed sys bad =
      elim (Bool-cases (skipped d b sc completed)) [
        | inl e ↦ rw (compute_loop, e) (compute_loop-Ran bufs scs completed sys bad)
        | inr e ↦
            let (err, sys') = run_job d b bufs (job_of d b sc) sys in
            let completed' = completed_with d b sc completed in
            rw (compute_loop, e)
              (first_Ran (job_of d b sc) (plan_from scs completed') err sys sys'
                (compute_loop d b bufs scs completed' sys')
                (run_job-Ran bufs (job_of d b sc) sys bad)
                (compute_loop-Ran bufs scs completed' sys' bad))
      ]

  abbrev pub asked : ComputeScenario → Bool
  asked sc = scenario_enabled b.opt sc.name

  plan_from-ungrouped :
      (scs rest : List ComputeScenario)
      → All (λ sc. ungrouped sc ≡ true) scs
      → plan_from (scs ++ rest) 0 ≡ map compute (chosen asked scs) ++ plan_from rest 0
  plan_from-ungrouped [] rest h = refl
  plan_from-ungrouped (sc ∷ scs) rest h = elim (Bool-cases (asked sc)) [
    | inl e ↦ rw (e, h.0) (ap (λ js. compute sc ∷ js) (plan_from-ungrouped scs rest h.1))
    | inr e ↦ rw e (plan_from-ungrouped scs rest h.1)
  ]

  abbrev int8_rows : List ComputeScenario
  int8_rows = drop 4 compute_scenarios

  int8_lem :
      plan_from int8_rows 0
      ≡ (if some_of_group 1 asked compute_scenarios then compute_group 1 ∷ [] else [])
  int8_lem = elim (Bool-cases (scenario_enabled b.opt (codes "int8-vrmpyacc"))) [
    | inl e ↦ elim (Bool-cases (scenario_enabled b.opt (codes "int8-vrmpy-add"))) [
      | inl f ↦ rw (e, f) refl
      | inr f ↦ rw (e, f) refl
    ]
    | inr e ↦ elim (Bool-cases (scenario_enabled b.opt (codes "int8-vrmpy-add"))) [
      | inl f ↦ rw (e, f) refl
      | inr f ↦ rw (e, f) refl
    ]
  ]

  pub plan_from_lem : plan_from compute_scenarios 0 ≡ planned_compute asked
  plan_from_lem =
      plan_from-ungrouped (chosen ungrouped compute_scenarios) int8_rows
        (refl, (refl, (refl, (refl, _))))
      ∙ ap (λ js. map compute (chosen asked (chosen ungrouped compute_scenarios)) ++ js) int8_lem
