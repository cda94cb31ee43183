-- ===== src/Host/Main/Ledger/Jobs.antt =====
-- What the benchmarks of host/cdsp_peak.c's `main` add to the ledger: nothing but the HMX buffers.
use cdsp_peak.Base.{
  ℕ, ◌+◌, ◌≡◌, inl, inr, refl, arith, true, false, Option, none, some, List, [], ◌∷◌, ◌==◌,
  if◌then◌else◌, Bool-cases,
}
use cdsp_peak.Base.Int.{ℤ, nonzero}
use cdsp_peak.Host.Filter.{scenario_enabled}
use cdsp_peak.Host.Scenarios.{ComputeScenario, HmxScenario, MemScenario, hmx_scenario_enabled}
use cdsp_peak.Host.Main.System.{Driver, HmxBuffers, Item, buffer, Job, hmx, mem, Sys}
use cdsp_peak.Host.Main.Acquire.{rpcmem_alloc}
use cdsp_peak.Host.Main.Jobs.{
  Bench, calibrated, finished, run_job, skipped, job_of, completed_with, compute_loop, alloc_hmx,
  some_missing, hmx_round, hmx_loop, mem_loop,
}
use cdsp_peak.Host.Main.Ledger.{weight, taken_of, given_of, Gains, Gains-trans}

abbrev pub of_hmx : Item → HmxBuffers → ℕ
of_hmx it bufs =
    weight it (buffer bufs.activation)
    + weight it (buffer bufs.weight)
    + weight it (buffer bufs.output)

module _ (d : Driver) (b : Bench) (it : Item) where
  finished-Gains :
      (job : Job) (sys : Sys d) (r : Option (ℤ × List ℕ × d.State))
      → Gains d it sys (finished d b job sys r).1 0
  finished-Gains job sys none = (omega arith, refl)
  finished-Gains job sys (some (err, counts, w)) = (omega arith, refl)

  pub run_job-Gains :
      (bufs : HmxBuffers) (job : Job) (sys : Sys d) → Gains d it sys (run_job d b bufs job sys).1 0
  unfolding run_job
  run_job-Gains bufs job sys = finished-Gains job sys (calibrated d b bufs job sys.world)

  -- Going on, or not
  first_Gains :
      (err : ℤ) (sys sys' : Sys d) (rest : ℤ × Sys d)
      → Gains d it sys sys' 0
      → Gains d it sys' rest.1 0
      → Gains d it sys (if nonzero err then (err, sys') else rest).1 0
  first_Gains err sys sys' rest g h = elim (Bool-cases (nonzero err)) [
    | inl e ↦ rw e g
    | inr e ↦ rw e (Gains-trans d it sys sys' rest.1 0 0 g h)
  ]

  pub compute_loop-Gains :
      (bufs : HmxBuffers) (scs : List ComputeScenario) (completed : ℕ) (sys : Sys d)
      → Gains d it sys (compute_loop d b bufs scs completed sys).1 0
  unfolding compute_loop
  compute_loop-Gains bufs [] completed sys = (omega arith, refl)
  compute_loop-Gains bufs (sc ∷ scs) completed sys = elim (Bool-cases (skipped d b sc completed)) [
    | inl e ↦ rw (compute_loop, e) (compute_loop-Gains bufs scs completed sys)
    | inr e ↦
        let (err, sys') = run_job d b bufs (job_of d b sc) sys in
        let completed' = completed_with d b sc completed in
        rw (compute_loop, e)
          (first_Gains err sys sys' (compute_loop d b bufs scs completed' sys')
            (run_job-Gains bufs (job_of d b sc) sys) (compute_loop-Gains bufs scs completed' sys'))
  ]

  pub mem_loop-Gains :
      (bufs : HmxBuffers) (scs : List MemScenario) (sys : Sys d)
      → Gains d it sys (mem_loop d b bufs scs sys).1 0
  unfolding mem_loop
  mem_loop-Gains bufs [] sys = (omega arith, refl)
  mem_loop-Gains bufs (sc ∷ scs) sys = elim (Bool-cases (scenario_enabled b.opt sc.name)) [
    | inr e ↦ rw (mem_loop, e) (mem_loop-Gains bufs scs sys)
    | inl e ↦
        let (err, sys') = run_job d b bufs (mem sc) sys in
        rw (mem_loop, e)
          (first_Gains err sys sys' (mem_loop d b bufs scs sys') (run_job-Gains bufs (mem sc) sys)
            (mem_loop-Gains bufs scs sys'))
  ]

  -- From one state and its HMX buffers to another, the item was taken as often as the buffers that
  -- came in hold it.
  abbrev pub HmxGains : HmxBuffers → Sys d → ℤ × HmxBuffers × Sys d → Type 0
  HmxGains bufs sys r =
      (taken_of it r.2.trace + of_hmx it bufs ≡ of_hmx it r.1 + taken_of it sys.trace)
      × (given_of it r.2.trace ≡ given_of it sys.trace)

  -- The three buffers are there together.
  abbrev pub IsWhole : HmxBuffers → Type 0
  IsWhole bufs = (bufs.activation == 0) ≡ true → of_hmx it bufs ≡ 0

  alloc_hmx_lem :
      (arch : ℤ) (sys : Sys d)
      → let r = alloc_hmx d b arch sys in Gains d it sys r.1 (of_hmx it r.0)
  unfolding alloc_hmx rpcmem_alloc
  alloc_hmx_lem arch sys = (omega arith, refl)

  hmx_round_lem :
      (arch : ℤ) (sc : HmxScenario) (bufs : HmxBuffers) (sys : Sys d)
      → nonzero d.errno.enomem ≡ true
      → IsWhole bufs
      → let r = hmx_round d b arch sc bufs sys in
        HmxGains bufs sys r × (nonzero r.0 ≡ false → IsWhole r.1)
  unfolding hmx_round
  hmx_round_lem arch sc bufs sys bad whole = elim (Bool-cases (bufs.activation == 0)) [
    | inr e ↦
        let g = run_job-Gains bufs (hmx sc) sys in
        rw (hmx_round, e) ((omega (arith, g.0), omega (arith, g.1)), λ z. whole)
    | inl e ↦
        let (bufs', sys') = alloc_hmx d b arch sys in
        let g = alloc_hmx_lem arch sys in
        let h = run_job-Gains bufs' (hmx sc) sys' in
        elim (Bool-cases (some_missing d b bufs')) [
          | inl f ↦
              rw (hmx_round, e, f)
                ((omega (arith, g.0, whole e), omega (arith, g.1)), λ z. absurd cc)
          | inr f ↦
              rw (hmx_round, e, f)
                (
                  (omega (arith, g.0, h.0, whole e), omega (arith, g.1, h.1)),
                  λ z there. absurd (ground arith),
                )
        ]
  ]

  pub hmx_loop_lem :
      (arch : ℤ) (scs : List HmxScenario) (bufs : HmxBuffers) (sys : Sys d)
      → nonzero d.errno.enomem ≡ true
      → IsWhole bufs
      → HmxGains bufs sys (hmx_loop d b arch scs bufs sys)
  unfolding hmx_loop
  hmx_loop_lem arch [] bufs sys bad whole = (omega arith, refl)
  hmx_loop_lem arch (sc ∷ scs) bufs sys bad whole =
      elim (Bool-cases (hmx_scenario_enabled b.opt sc arch)) [
        | inr e ↦ rw (hmx_loop, e) (hmx_loop_lem arch scs bufs sys bad whole)
        | inl e ↦
            let r = hmx_round d b arch sc bufs sys in
            let row = hmx_round_lem arch sc bufs sys bad whole in
            elim (Bool-cases (nonzero r.0)) [
              | inl f ↦ rw (hmx_loop, e, f) row.0
              | inr f ↦
                  let rest = hmx_loop_lem arch scs r.1 r.2 bad (row.1 f) in
                  rw (hmx_loop, e, f)
                    (omega (arith, row.0.0, rest.0), omega (arith, row.0.1, rest.1))
            ]
      ]
