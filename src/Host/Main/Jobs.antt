-- ===== src/Host/Main/Jobs.antt =====
-- The benchmarks that `main` of host/cdsp_peak.c runs, in its three loops over the tables.
use Prim.Native.Nat.{bit_and, bit_or}
use cdsp_peak.Base.{
  ℕ, ◌^◌, Bool, true, false, not, ◌&&◌, ◌||◌, Option, none, some, List, [], ◌∷◌, get_or, u32, ◌==◌,
  if◌then◌else◌,
}
use cdsp_peak.Base.Int.{ℤ, nonzero}
use cdsp_peak.Aee.{aee_success}
use cdsp_peak.Host.Options.{Options}
use cdsp_peak.Host.Filter.{scenario_enabled}
use cdsp_peak.Host.Scenarios.{
  ComputeScenario, HmxScenario, MemScenario, hmx_scenario_enabled, max_enabled_hmx_activation_bytes,
  max_enabled_hmx_weight_bytes, max_enabled_hmx_output_bytes,
}
use cdsp_peak.Host.Calibrate.{run_rpc_null, run_compute, run_hmx_int8, run_mem}
use cdsp_peak.Host.Calibrate.Group.{run_compute_group}
use cdsp_peak.Host.Main.System.{
  Driver, HmxBuffers, Job, rpc_null, compute, compute_group, hmx, mem, ran, Sys,
}
use cdsp_peak.Host.Main.Acquire.{rpcmem_alloc}

-- What the benchmarks are given.
pub record Bench : Type 0 where
  pub opt : Options
  pub handles : List ℕ
  pub srcs : List ℕ
  pub dsts : List ℕ
  pub bytes : ℕ

module _ (d : Driver) (b : Bench) where
  -- The calibration loop of a job.
  unfoldable pub calibrated : HmxBuffers → Job → d.State → Option (ℤ × List ℕ × d.State)
  calibrated bufs rpc_null w = run_rpc_null d.State (d.measure_rpc b.opt b.handles) w
  calibrated bufs (compute sc) w =
      run_compute d.State (d.measure_compute b.opt b.handles sc) b.opt sc w
  calibrated bufs (compute_group g) w =
      run_compute_group d.State (d.measure_compute b.opt b.handles) b.opt g w
  calibrated bufs (hmx sc) w =
      run_hmx_int8 d.State (d.measure_hmx b.opt (get_or b.handles 0 0) sc bufs) b.opt sc w
  calibrated bufs (mem sc) w =
      run_mem d.State (d.measure_mem b.opt b.handles sc b.srcs b.dsts b.bytes) w

  -- The loops have fuel enough where `iterations` is an `int`: there is a result.
  abbrev pub finished : Job → Sys d → Option (ℤ × List ℕ × d.State) → ℤ × Sys d
  finished job sys none = (d.aee.efailed, sys)
  finished job sys (some (err, counts, world)) =
      (err, record { world = world; trace = ran job err ∷ sys.trace })

  unfoldable pub run_job : HmxBuffers → Job → Sys d → ℤ × Sys d
  run_job bufs job sys = finished job sys (calibrated bufs job sys.world)

  -- `iteration_group != ITERATION_GROUP_NONE`, and the bit of the group in `completed_groups`
  abbrev pub grouped : ComputeScenario → Bool
  grouped sc = not (sc.iteration_group == 0)

  abbrev group_bit : ComputeScenario → ℕ
  group_bit sc = u32 (2 ^ sc.iteration_group)

  abbrev pub skipped : ComputeScenario → ℕ → Bool
  skipped sc completed =
      not (scenario_enabled b.opt sc.name)
      || (grouped sc && not (bit_and completed (group_bit sc) == 0))

  -- What a row that is not skipped runs, and `completed_groups` behind it
  abbrev pub job_of : ComputeScenario → Job
  job_of sc = if grouped sc then compute_group sc.iteration_group else compute sc

  abbrev pub completed_with : ComputeScenario → ℕ → ℕ
  completed_with sc completed = if grouped sc then bit_or completed (group_bit sc) else completed

  -- The rows that are left, with `completed_groups`.
  unfoldable pub compute_loop : HmxBuffers → List ComputeScenario → ℕ → Sys d → ℤ × Sys d
  compute_loop bufs [] completed sys = (aee_success, sys)
  compute_loop bufs (sc ∷ scs) completed sys = elim (skipped sc completed) [
    | true ↦ compute_loop bufs scs completed sys
    | false ↦
        let (err, sys') = run_job bufs (job_of sc) sys in
        let rest = compute_loop bufs scs (completed_with sc completed) sys' in
        if nonzero err then (err, sys') else rest
  ]

  -- The three allocations in front of the first HMX row.
  unfoldable pub alloc_hmx : ℤ → Sys d → HmxBuffers × Sys d
  alloc_hmx arch sys =
      let (a, sys₁) = rpcmem_alloc d (max_enabled_hmx_activation_bytes b.opt arch) sys in
      let (w, sys₂) = rpcmem_alloc d (max_enabled_hmx_weight_bytes b.opt arch) sys₁ in
      let (o, sys₃) = rpcmem_alloc d (max_enabled_hmx_output_bytes b.opt arch) sys₂ in
      (record { activation = a; weight = w; output = o }, sys₃)

  abbrev pub some_missing : HmxBuffers → Bool
  some_missing bufs = (bufs.activation == 0) || (bufs.weight == 0) || (bufs.output == 0)

  -- One row: the error, the buffers and the state.
  unfoldable pub hmx_round : ℤ → HmxScenario → HmxBuffers → Sys d → ℤ × HmxBuffers × Sys d
  hmx_round arch sc bufs sys = elim (bufs.activation == 0) [
    | false ↦ let (err, sys') = run_job bufs (hmx sc) sys in (err, bufs, sys')
    | true ↦
        let (bufs', sys') = alloc_hmx arch sys in
        let (err, sys'') = run_job bufs' (hmx sc) sys' in
        if some_missing bufs' then (d.errno.enomem, bufs', sys') else (err, bufs', sys'')
  ]

  unfoldable pub hmx_loop : ℤ → List HmxScenario → HmxBuffers → Sys d → ℤ × HmxBuffers × Sys d
  hmx_loop arch [] bufs sys = (aee_success, bufs, sys)
  hmx_loop arch (sc ∷ scs) bufs sys = elim (hmx_scenario_enabled b.opt sc arch) [
    | false ↦ hmx_loop arch scs bufs sys
    | true ↦
        let (err, bufs', sys') = hmx_round arch sc bufs sys in
        let rest = hmx_loop arch scs bufs' sys' in if nonzero err then (err, bufs', sys') else rest
  ]

  unfoldable pub mem_loop : HmxBuffers → List MemScenario → Sys d → ℤ × Sys d
  mem_loop bufs [] sys = (aee_success, sys)
  mem_loop bufs (sc ∷ scs) sys = elim (scenario_enabled b.opt sc.name) [
    | false ↦ mem_loop bufs scs sys
    | true ↦
        let (err, sys') = run_job bufs (mem sc) sys in
        let rest = mem_loop bufs scs sys' in if nonzero err then (err, sys') else rest
  ]
