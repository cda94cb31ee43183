-- ===== src/Host/Workers/Tests.antt =====
-- Two workers, and a calibration whose third measurement is long enough.
use cdsp_peak.Base.{ℕ, ◌+◌, ◌≡◌, ◌≢◌, ◌⊎◌, refl, arith, true, false, some, [], ◌∷◌, ltb}
use cdsp_peak.Base.Int.{pos, negsuc, nonzero}
use cdsp_peak.Aee.{aee_success}
use cdsp_peak.Host.Options.{Options, pd_required, power_max}
use cdsp_peak.Host.Workers.{Worker, BenchResult, initial_result, collect, measure_threads}
use cdsp_peak.Host.Workers.Laws.{Covers, measure_threads_lem}
use cdsp_peak.Host.Workers.Checksum.{collect_detects}
use cdsp_peak.Host.Scenarios.{ComputeScenario, HmxScenario, compute_scenarios}
use cdsp_peak.Host.Calibrate.Group.{
  measure_group, run_compute_group, run_compute_group-IsCalibrated,
}
use cdsp_peak.Host.Calibrate.{Measure, calibrate, run_rpc_null, run_compute, run_hmx_int8, run_mem}
use cdsp_peak.Host.Calibrate.Laws.{IsCalibrated, runs-IsCalibrated}

abbrev slow : Worker
slow = record { err = pos 0; cycles = 90; checksum = 5 }

abbrev fast : Worker
fast = record { err = pos 0; cycles = 70; checksum = 6 }

measure_threads_lem_example :
    let (err, result) =
      measure_threads (negsuc 11) true true (λ i. pos 0) 1000 (slow ∷ fast ∷ []) in
    (nonzero err ≡ true)
    ⊎ ((err ≡ aee_success)
        × ((r : BenchResult) × (result ≡ some r)
            × (r.count ≡ 2000)
            × Covers r.cycles (slow ∷ fast ∷ [])))
measure_threads_lem_example =
    measure_threads_lem (negsuc 11) true true (λ i. pos 0) 1000 (slow ∷ fast ∷ []) refl

collect_detects_example :
    (collect 0 (slow ∷ slow ∷ []) (initial_result 2)).1.checksum
    ≢ (collect 0 (slow ∷ fast ∷ []) (initial_result 2)).1.checksum
collect_detects_example =
    collect_detects 0 (initial_result 2) (slow ∷ []) slow fast [] (refl, (refl, _))
      (refl, (refl, _)) (omega arith) (omega arith) (omega arith) (omega arith)

-- The state counts the measurements; from the third on they are long enough.
abbrev third_long : Measure ℕ
third_long n s = (pos 0, ltb 1 s, s + 1)

three_rounds : run_rpc_null ℕ third_long 0 ≡ some (pos 0, 4 ∷ 2 ∷ 1 ∷ [], 3)
unfolding run_rpc_null calibrate
three_rounds = refl

abbrev opt : Options
opt = record {
  domain = pos 3;
  unsigned_pd = pd_required;
  reset = false;
  min_ms = pos 300;
  iterations = pos 0;
  threads = pos 2;
  threads_auto = false;
  power_mode = power_max;
  size_mib = 8;
  scenario_filter = [];
}

abbrev compute : ComputeScenario
compute = record {
  name = [];
  unit = [];
  kernel = 0;
  ops_per_iter = 512;
  start_iterations = 10000;
  iteration_group = 0;
}

abbrev hmx : HmxScenario
hmx = record {
  name = [];
  mode = 0;
  unit = [];
  ops_per_repeat = 65536;
  start_repeats = 1;
  activation_bytes = 1024;
  weight_bytes = 1024;
  output_bytes = 1024;
  default_enabled = true;
  default_min_arch = 0;
}

runs-IsCalibrated_example :
    IsCalibrated ℕ third_long 0 (run_rpc_null ℕ third_long 0)
    × IsCalibrated ℕ third_long 0 (run_compute ℕ third_long opt compute 0)
    × IsCalibrated ℕ third_long 0 (run_hmx_int8 ℕ third_long opt hmx 0)
    × IsCalibrated ℕ third_long 0 (run_mem ℕ third_long 0)
runs-IsCalibrated_example =
    runs-IsCalibrated ℕ third_long 0 opt compute hmx (omega arith) (omega arith, omega arith)
      (omega arith, omega arith)

run_compute_group-IsCalibrated_example :
    IsCalibrated ℕ
      (measure_group ℕ (λ sc. third_long) opt 1 compute_scenarios)
      0
      (run_compute_group ℕ (λ sc. third_long) opt 1 0)
run_compute_group-IsCalibrated_example =
    run_compute_group-IsCalibrated ℕ (λ sc. third_long) opt 1 0 (omega arith)
