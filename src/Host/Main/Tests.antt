-- ===== src/Host/Main/Tests.antt =====
-- `main` against a driver that counts.
use mathlib.Core.Path.{subst}
use cdsp_peak.Base.{
  ℕ, ◌+◌, ◌≡◌, refl, true, false, none, List, [], ◌∷◌, ◌==◌, if◌then◌else◌, codes, same_text, inl,
  inr, Bool-cases,
}
use cdsp_peak.Base.Int.{ℤ, pos, negsuc, nonzero}
use cdsp_peak.Dsp.Power.{outs}
use cdsp_peak.Host.Options.{
  Options, goes_on, parse_options, power_max, pd_required, parse_args, parse_value, key_of,
  parse_flag, normalize_options, resolve_thread_count, buffer_bytes,
}
use cdsp_peak.Host.Filter.{scenario_enabled, filter_names, before_comma, after_comma}
use cdsp_peak.Host.Arch.{make_uri, skel_arch_suffix, normalize_hexagon_arch}
use cdsp_peak.Host.ExeDir.{add_executable_dir_to_dsp_paths, executable_dir}
use cdsp_peak.Host.Scenarios.{
  hmx_scenario_enabled, any_mem_scenario_enabled, max_enabled_hmx_activation_bytes,
  max_enabled_hmx_weight_bytes, max_enabled_hmx_output_bytes, max_enabled,
}
use cdsp_peak.Host.Power.{apply_power_config, power_loop}
use cdsp_peak.Host.Calibrate.{calibrate, run_rpc_null, run_mem, run_hmx_int8, run_compute}
use cdsp_peak.Host.Calibrate.Group.{
  run_compute_group, choose_group_start_iterations, largest_start, measure_group,
}
use cdsp_peak.Host.Main.Control.{
  enable_unsigned_pd, reset_domain_if_requested, query_dsp_capability, query_all,
}
use cdsp_peak.Host.Main.Acquire.{alloc_buffers, alloc_loop, open_loop, take_block, rpcmem_alloc}
use cdsp_peak.Host.Main.Jobs.{
  compute_loop, hmx_loop, hmx_round, mem_loop, run_job, calibrated, alloc_hmx,
}
use cdsp_peak.Host.Main.{main, connect, session, with_handles, benchmarks, unsigned_pd}
use cdsp_peak.Host.Main.System.{Driver, LeavesZero, arch_ver, hvx_support_128b, handle}
use cdsp_peak.Host.Main.Ledger.Balance.{start, IsBalanced, main-IsBalanced}
use cdsp_peak.Host.Main.Plan.{ran_of, then_ran, planned}
use cdsp_peak.Host.Main.Plan.Completed.{main-Completes}
use cdsp_peak.Host.Main.Plan.Partial.{Begins}
use cdsp_peak.Host.Main.Plan.Always.{main-Begins}

-- Handles and pointers are 1, 2, 3 and so on; the open number `failing` fails.
abbrev counting : ℕ → Driver
counting failing = record {
  State = ℕ;
  aee = record {
    ebadparm = pos 14;
    eunsupported = pos 20;
    enomemory = pos 2;
    efailed = pos 1;
    ebadparm_error = refl;
    eunsupported_error = refl;
    enomemory_error = refl;
    efailed_error = refl;
  };
  errno = record {
    einval = negsuc 21;
    enametoolong = negsuc 35;
    enomem = negsuc 11;
    enotsup = negsuc 94;
    enomem_error = refl;
  };
  domains = record {
    adsp_domain_id = pos 0;
    mdsp_domain_id = pos 1;
    sdsp_domain_id = pos 2;
    cdsp_domain_id = pos 3;
    cdsp1_domain_id = pos 4;
    adsp_domain = codes "&_dom=adsp";
    mdsp_domain = codes "&_dom=mdsp";
    sdsp_domain = codes "&_dom=sdsp";
    cdsp_domain = codes "&_dom=cdsp";
    cdsp1_domain = codes "&_dom=cdsp1";
  };
  strtol = λ text. (pos 2, []);
  strtoull = λ text. (1, []);
  readlink = λ w n. inl (negsuc 1);
  readable = λ w path. true;
  setenv = λ name dir w. w;
  uri_base = λ w. none;
  heap_there = λ w b n. true;
  remote_session_control = λ request w. (pos 0, w);
  remote_handle_control = λ domain attribute w. elim attribute [
    | arch_ver ↦ (pos 0, 79, w)
    | hvx_support_128b ↦ (pos 0, 4, w)
    | _ ↦ (pos 20, 0, w)
  ];
  open_handle = λ uri w. if w == failing then (pos 3, 0, w) else (pos 0, w + 1, w + 1);
  close_handle = λ h w. w;
  set_power = λ h mode w. (pos 0, outs 31 0 (pos 0), w);
  get_info = λ h w. (pos 0, pos 79, w);
  rpcmem_alloc = λ n w. (w + 1, w + 1);
  rpcmem_free = λ p w. w;
  write = λ p bytes w. w;
  measure_rpc = λ opt hs n w. (pos 0, true, w);
  measure_compute = λ opt hs sc n w. (pos 0, true, w);
  measure_hmx = λ opt h sc bufs n w. (pos 0, true, w);
  measure_mem = λ opt hs sc srcs dsts bytes n w. (pos 0, true, w);
}

abbrev args : List (List ℕ)
args = codes "--scenario" ∷ codes "rpc-null,int8-vrmpy-add,hmx-lock,mem-copy" ∷ []

abbrev parsed : Options
parsed = record {
  domain = pos 3;
  unsigned_pd = pd_required;
  reset = false;
  min_ms = pos 300;
  iterations = pos 0;
  threads = pos 0;
  threads_auto = true;
  power_mode = power_max;
  size_mib = 64;
  scenario_filter = codes "rpc-null,int8-vrmpy-add,hmx-lock,mem-copy";
}

counting-LeavesZero : (failing : ℕ) → LeavesZero (counting failing)
counting-LeavesZero failing uri w e = elim (Bool-cases (w == failing)) [
  | inl f ↦ rw f refl
  | inr f ↦
      let g =
        subst
          (λ b.
            nonzero (let r : ℤ × ℕ × ℕ = if b then (pos 3, 0, w) else (pos 0, w + 1, w + 1) in r.0)
            ≡ true)
          f e in
      absurd cc
]

-- The third of four opens fails.
main-IsBalanced_example :
    IsBalanced (handle 2) (main (counting 2) args (start (counting 2) 0)).1.trace
main-IsBalanced_example =
    main-IsBalanced (counting 2) args 0 (handle 2) (counting-LeavesZero 2) refl

accepted : parse_options (counting 9).strtol (counting 9).strtoull (pos 3) args ≡ goes_on parsed
unfolding parse_options parse_args parse_value key_of parse_flag normalize_options same_text
accepted = refl

returns_0 : (main (counting 9) args (start (counting 9) 0)).0 ≡ 0
unfolding main enable_unsigned_pd reset_domain_if_requested query_dsp_capability query_all
    apply_power_config power_loop run_mem run_hmx_int8 run_compute any_mem_scenario_enabled
    max_enabled_hmx_activation_bytes max_enabled_hmx_weight_bytes max_enabled_hmx_output_bytes
    max_enabled add_executable_dir_to_dsp_paths executable_dir connect session with_handles
    benchmarks unsigned_pd compute_loop hmx_loop hmx_round mem_loop run_job calibrated alloc_hmx
    alloc_buffers alloc_loop open_loop take_block rpcmem_alloc parse_options parse_args parse_value
    key_of parse_flag normalize_options same_text buffer_bytes scenario_enabled filter_names
    before_comma after_comma resolve_thread_count make_uri skel_arch_suffix normalize_hexagon_arch
    hmx_scenario_enabled calibrate run_rpc_null run_compute_group choose_group_start_iterations
    largest_start measure_group
returns_0 = refl

main-Completes_example :
    (h : ℕ) × (w : ℕ) × (ran_of (main (counting 9) args (start (counting 9) 0)).1.trace
      ≡ then_ran (planned parsed ((counting 9).get_info h w).1) [])
main-Completes_example = main-Completes (counting 9) args 0 parsed accepted returns_0

-- The int8 group fails.
abbrev failing_compute : Driver
failing_compute = record (counting 9) { measure_compute = λ opt hs sc n w. (pos 5, true, w) }

main-Begins_example :
    (h : ℕ) × (w : ℕ) × Begins
      (planned parsed (failing_compute.get_info h w).1)
      []
      (ran_of (main failing_compute args (start failing_compute 0)).1.trace)
main-Begins_example = main-Begins failing_compute args 0 parsed accepted
