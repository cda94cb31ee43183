-- ===== src/Host/Main/Plan/Partial.antt =====
-- Whatever fails in `main` of host/cdsp_peak.c, what ran is the beginning of the plan.
use mathlib.Core.List.{append_assoc}
use mathlib.Core.Path.{subst}
use cdsp_peak.Base.{
  ℕ, ◌≡◌, ◌⊎◌, ◌∙◌, refl, sym, ap, inl, inr, true, Option, none, some, List, [], ◌∷◌, ◌++◌, ◌==◌,
  if◌then◌else◌, Bool-cases,
}
use cdsp_peak.Base.Int.{ℤ, nonzero}
use cdsp_peak.Aee.{aee_success}
use cdsp_peak.Host.Filter.{scenario_enabled}
use cdsp_peak.Host.Scenarios.{ComputeScenario, HmxScenario, MemScenario, hmx_scenario_enabled}
use cdsp_peak.Host.Main.System.{Driver, HmxBuffers, Job, hmx, mem, Sys}
use cdsp_peak.Host.Main.Jobs.{
  Bench, calibrated, finished, run_job, skipped, job_of, completed_with, compute_loop, alloc_hmx,
  some_missing, hmx_round, hmx_loop, mem_loop,
}
use cdsp_peak.Host.Main.Plan.{ran_of, then_ran, planned_hmx, planned_mem}
use cdsp_peak.Host.Main.Plan.Followed.{plan_from, run_job-Ran, alloc_hmx-Ran, hmx_round-Ran}

-- From what ran before to what ran after: some of the jobs, from the first on, with success, and at
-- most one more, the next, with whatever it returned.
abbrev pub Begins : List Job → List (Job × ℤ) → List (Job × ℤ) → Type 0
Begins jobs before after =
    (js : List Job) × (ks : List Job) × (jobs ≡ js ++ ks)
    × ((after ≡ then_ran js before)
        ⊎ ((job : Job) × (err : ℤ) × (ls : List Job) × (ks ≡ job ∷ ls)
            × (after ≡ (job, err) ∷ then_ran js before)))

pub Begins-none : (jobs : List Job) (before : List (Job × ℤ)) → Begins jobs before before
Begins-none jobs before = ([], jobs, refl, inl refl)

pub Begins-append :
    (jobs more : List Job) (before after : List (Job × ℤ))
    → Begins jobs before after
    → Begins (jobs ++ more) before after
Begins-append jobs more before after (js, ks, e, inl f) =
    (js, ks ++ more, ap (λ xs. xs ++ more) e ∙ append_assoc js ks more, inl f)
Begins-append jobs more before after (js, ks, e, inr (job, err, ls, f, g)) = (
  js,
  ks ++ more,
  ap (λ xs. xs ++ more) e ∙ append_assoc js ks more,
  inr (job, err, ls ++ more, ap (λ xs. xs ++ more) f, g),
)

pub Begins-cons :
    (job : Job) (jobs : List Job) (err : ℤ) (before after : List (Job × ℤ))
    → Begins jobs (then_ran (job ∷ []) before) after
    → Begins (job ∷ jobs) before after
Begins-cons job jobs err before after (js, ks, e, r) = (job ∷ js, ks, ap (λ xs. job ∷ xs) e, r)

pub append-Begins :
    (first jobs : List Job) (before after : List (Job × ℤ))
    → Begins jobs (then_ran first before) after
    → Begins (first ++ jobs) before after
append-Begins [] jobs before after h = h
append-Begins (job ∷ first) jobs before after h =
    Begins-cons job (first ++ jobs) aee_success before after
      (append-Begins first jobs (then_ran (job ∷ []) before) after h)

module _ (d : Driver) (b : Bench) (bad : nonzero d.aee.efailed ≡ true)
    (bad' : nonzero d.errno.enomem ≡ true) where
  abbrev pub Began : List Job → Sys d → Sys d → Type 0
  Began jobs sys sys' = Begins jobs (ran_of sys.trace) (ran_of sys'.trace)

  finished-Began :
      (job : Job) (sys : Sys d) (r : Option (ℤ × List ℕ × d.State))
      → Began (job ∷ []) sys (finished d b job sys r).1
  finished-Began job sys none = Begins-none (job ∷ []) (ran_of sys.trace)
  finished-Began job sys (some (err, counts, w)) =
      ([], job ∷ [], refl, inr (job, err, [], refl, refl))

  pub run_job-Began :
      (bufs : HmxBuffers) (job : Job) (sys : Sys d)
      → Began (job ∷ []) sys (run_job d b bufs job sys).1
  unfolding run_job
  run_job-Began bufs job sys = finished-Began job sys (calibrated d b bufs job sys.world)

  -- A job, and what comes behind it if there is no error
  first_Began :
      (bufs : HmxBuffers) (job : Job) (jobs : List Job) (sys : Sys d) (rest : ℤ × Sys d)
      → let (err, sys') = run_job d b bufs job sys in
        Began jobs sys' rest.1
        → Began (job ∷ jobs) sys (if nonzero err then (err, sys') else rest).1
  first_Began bufs job jobs sys rest h =
      let r = run_job d b bufs job sys in
      elim (Bool-cases (nonzero r.0)) [
        | inl e ↦ rw e (
            Begins-append (job ∷ []) jobs (ran_of sys.trace) (ran_of r.1.trace)
              (run_job-Began bufs job sys))
        | inr e ↦ rw e (
            append-Begins (job ∷ []) jobs (ran_of sys.trace) (ran_of rest.1.trace) (
              subst (λ before. Begins jobs before (ran_of rest.1.trace))
                (run_job-Ran d b bufs job sys bad e) h))
      ]

  pub mem_loop-Began :
      (bufs : HmxBuffers) (scs : List MemScenario) (sys : Sys d)
      → Began (planned_mem b.opt scs) sys (mem_loop d b bufs scs sys).1
  unfolding mem_loop
  mem_loop-Began bufs [] sys = Begins-none [] (ran_of sys.trace)
  mem_loop-Began bufs (sc ∷ scs) sys = elim (Bool-cases (scenario_enabled b.opt sc.name)) [
    | inr e ↦ rw (mem_loop, e) (mem_loop-Began bufs scs sys)
    | inl e ↦
        let r = run_job d b bufs (mem sc) sys in
        rw (mem_loop, e)
          (first_Began bufs (mem sc) (planned_mem b.opt scs) sys (mem_loop d b bufs scs r.1)
            (mem_loop-Began bufs scs r.1))
  ]

  pub compute_loop-Began :
      (bufs : HmxBuffers) (scs : List ComputeScenario) (completed : ℕ) (sys : Sys d)
      → Began (plan_from d b scs completed) sys (compute_loop d b bufs scs completed sys).1
  unfolding compute_loop
  compute_loop-Began bufs [] completed sys = Begins-none [] (ran_of sys.trace)
  compute_loop-Began bufs (sc ∷ scs) completed sys = elim (Bool-cases (skipped d b sc completed)) [
    | inl e ↦ rw (compute_loop, e) (compute_loop-Began bufs scs completed sys)
    | inr e ↦
        let r = run_job d b bufs (job_of d b sc) sys in
        let completed' = completed_with d b sc completed in
        rw (compute_loop, e)
          (first_Began bufs (job_of d b sc) (plan_from d b scs completed') sys
            (compute_loop d b bufs scs completed' r.1) (compute_loop-Began bufs scs completed' r.1))
  ]

  hmx_round-Began :
      (arch : ℤ) (sc : HmxScenario) (bufs : HmxBuffers) (sys : Sys d)
      → Began (hmx sc ∷ []) sys (hmx_round d b arch sc bufs sys).2
  unfolding hmx_round
  hmx_round-Began arch sc bufs sys = elim (Bool-cases (bufs.activation == 0)) [
    | inr e ↦ rw (hmx_round, e) (run_job-Began bufs (hmx sc) sys)
    | inl e ↦
        let r = alloc_hmx d b arch sys in
        elim (Bool-cases (some_missing d b r.0)) [
          | inl f ↦
              rw (hmx_round, e, f)
                (subst (Begins (hmx sc ∷ []) (ran_of sys.trace)) (sym (alloc_hmx-Ran d b arch sys))
                  (Begins-none (hmx sc ∷ []) (ran_of sys.trace)))
          | inr f ↦
              rw (hmx_round, e, f)
                (subst
                  (λ before.
                    Begins (hmx sc ∷ []) before (ran_of (run_job d b r.0 (hmx sc) r.1).1.trace))
                  (alloc_hmx-Ran d b arch sys) (run_job-Began r.0 (hmx sc) r.1))
        ]
  ]

  pub hmx_loop-Began :
      (arch : ℤ) (scs : List HmxScenario) (bufs : HmxBuffers) (sys : Sys d)
      → Began (planned_hmx b.opt arch scs) sys (hmx_loop d b arch scs bufs sys).2
  unfolding hmx_loop
  hmx_loop-Began arch [] bufs sys = Begins-none [] (ran_of sys.trace)
  hmx_loop-Began arch (sc ∷ scs) bufs sys = elim (Bool-cases (hmx_scenario_enabled b.opt sc arch)) [
    | inr e ↦ rw (hmx_loop, e) (hmx_loop-Began arch scs bufs sys)
    | inl e ↦
        let r = hmx_round d b arch sc bufs sys in
        let jobs = planned_hmx b.opt arch scs in
        let rest = hmx_loop d b arch scs r.1 r.2 in
        elim (Bool-cases (nonzero r.0)) [
          | inl f ↦
              rw (hmx_loop, e, f)
                (Begins-append (hmx sc ∷ []) jobs (ran_of sys.trace) (ran_of r.2.trace)
                  (hmx_round-Began arch sc bufs sys))
          | inr f ↦
              rw (hmx_loop, e, f)
                (append-Begins (hmx sc ∷ []) jobs (ran_of sys.trace) (ran_of rest.2.trace) (
                  subst (λ before. Begins jobs before (ran_of rest.2.trace))
                    (hmx_round-Ran d b arch sc bufs sys bad bad' f)
                    (hmx_loop-Began arch scs r.1 r.2)))
        ]
  ]
