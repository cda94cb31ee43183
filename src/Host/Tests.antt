-- ===== src/Host/Tests.antt =====
-- The host's functions on small inputs.

use cdsp_peak.Base.{
  ℕ, ◌+◌, ◌-◌, ◌*◌, ◌^◌, ◌≤◌, ◌<◌, ◌≡◌, ◌⊎◌, refl, arith, true, false, ◌||◌, none, some, List, [],
  ◌∷◌, All, min, codes, same_text,
}
use cdsp_peak.Base.Int.{ℤ, pos}
use cdsp_peak.Aee.{AeeCodes}
use cdsp_peak.Dsp.Power.Hap.{Request}
use cdsp_peak.Dsp.Power.{History, Platform}
use cdsp_peak.Dsp.Power.Votes.{granted_mask}
use cdsp_peak.Host.Options.{
  Options, goes_on, power_max, pd_required, parse_args, parse_options, parse_value, parse_size_arg,
  parse_flag, key_of, normalize_options, resolve_thread_count, buffer_bytes,
}
use cdsp_peak.Host.Options.Laws.{
  IsNormal, EndsWell, parse_options-EndsWell, resolve_thread_count_lem, buffer_bytes_lem,
}
use cdsp_peak.Host.Filter.{scenario_enabled, filter_names, before_comma, after_comma}
use cdsp_peak.Host.Filter.Laws.{fields, among, scenario_enabled_lem}
use cdsp_peak.Host.Power.{apply_power_config}
use cdsp_peak.Host.Power.Laws.{
  IsApplied, votes_of_all, apply_power_config-IsApplied, remote_set_power,
}
use cdsp_peak.Host.Scenarios.{
  hmx_scenarios, hmx_scenario_enabled, max_enabled_hmx_activation_bytes,
  max_enabled_hmx_weight_bytes, max_enabled_hmx_output_bytes,
}
use cdsp_peak.Host.Scenarios.Laws.{Runnable, max_enabled_lem, hmx_scenario_enabled-Runnable}

-- A `strtol` of one decimal digit.
abbrev digit : List ℕ → ℤ × List ℕ
digit [] = (pos 0, [])
digit (c ∷ cs) = (pos (c - b'0'), cs)

abbrev unsigned_digit : List ℕ → ℕ × List ℕ
unsigned_digit [] = (0, [])
unsigned_digit (c ∷ cs) = (c - b'0', cs)

abbrev two_threads : Options
two_threads = record {
  domain = pos 3;
  unsigned_pd = pd_required;
  reset = false;
  min_ms = pos 300;
  iterations = pos 0;
  threads = pos 2;
  threads_auto = false;
  power_mode = power_max;
  size_mib = 8;
  scenario_filter = codes "mem-copy,rpc-null";
}

-- `--size-mib 0` is taken as 1.
parse_size :
    parse_options digit unsigned_digit
      (pos 3)
      (codes "--size-mib" ∷ codes "0" ∷ codes "--reset" ∷ [])
    ≡ goes_on (record two_threads {
      reset = true;
      threads = pos 0;
      threads_auto = true;
      size_mib = 1;
      scenario_filter = codes "all";
    })
unfolding parse_options parse_args parse_value parse_size_arg parse_flag key_of normalize_options
    same_text
parse_size = refl

-- 2 ^ 44 + 1 MiB are taken as one.
wrapped_size : buffer_bytes (2 ^ 44 + 1) ≡ some (2 ^ 20)
unfolding buffer_bytes
wrapped_size = refl

parse_options-EndsWell_example :
    EndsWell IsNormal
      (parse_options digit unsigned_digit (pos 3) (codes "--threads" ∷ codes "4" ∷ []))
parse_options-EndsWell_example =
    parse_options-EndsWell digit unsigned_digit (pos 3) (codes "--threads" ∷ codes "4" ∷ [])

resolve_thread_count_lem_example :
    let threads = (resolve_thread_count two_threads 2 4).threads in
    ((n : ℕ) × (threads ≡ pos n) × (1 ≤ n) × (n ≤ 256))
    × ((n : ℕ) → false ≡ false → pos 2 ≡ pos n → 1 ≤ n → n ≤ 256 → threads ≡ pos n)
    × (false ≡ true → 1 ≤ 4 → 4 < 2 ^ 31 → threads ≡ pos (min 4 256))
resolve_thread_count_lem_example = resolve_thread_count_lem two_threads 2 4

buffer_bytes_lem_example :
    ((64 ≤ 2047) × (buffer_bytes 64 ≡ some (64 * 2 ^ 20)))
    ⊎ ((2047 < 64) × (buffer_bytes 64 ≡ none))
buffer_bytes_lem_example = buffer_bytes_lem 64 (omega arith)

enabled_second : scenario_enabled two_threads (codes "rpc-null") ≡ true
unfolding scenario_enabled filter_names before_comma after_comma same_text
enabled_second = refl

scenario_enabled_lem_example : scenario_enabled two_threads (codes "rpc-null") ≡ (
    same_text (codes "mem-copy,rpc-null") (codes "all")
    || among (codes "rpc-null") (fields (codes "mem-copy,rpc-null")))
scenario_enabled_lem_example = scenario_enabled_lem two_threads b'r' (codes "pc-null")

max_enabled_lem_example :
    All
      (λ sc.
        hmx_scenario_enabled two_threads sc (pos 79) ≡ true
        → sc.activation_bytes ≤ max_enabled_hmx_activation_bytes two_threads (pos 79))
      hmx_scenarios
    × All
        (λ sc.
          hmx_scenario_enabled two_threads sc (pos 79) ≡ true
          → sc.weight_bytes ≤ max_enabled_hmx_weight_bytes two_threads (pos 79))
        hmx_scenarios
    × All
        (λ sc.
          hmx_scenario_enabled two_threads sc (pos 79) ≡ true
          → sc.output_bytes ≤ max_enabled_hmx_output_bytes two_threads (pos 79))
        hmx_scenarios
max_enabled_lem_example = max_enabled_lem two_threads (pos 79)

abbrev all_scenarios : Options
all_scenarios = record two_threads { scenario_filter = codes "all" }

hmx_scenario_enabled-Runnable_example :
    All (λ sc. hmx_scenario_enabled all_scenarios sc (pos 79) ≡ true → Runnable 79 sc) hmx_scenarios
hmx_scenario_enabled-Runnable_example = hmx_scenario_enabled-Runnable all_scenarios 78 refl

abbrev aee : AeeCodes
aee = record {
  ebadparm = pos 14;
  eunsupported = pos 20;
  enomemory = pos 2;
  efailed = pos 1;
  ebadparm_error = refl;
  eunsupported_error = refl;
  enomemory_error = refl;
  efailed_error = refl;
}

abbrev grant : History → ℕ → Request → ℤ
grant h context r = pos 0

abbrev v79 : Platform
v79 = record { hap_power_set = some grant; hvx_arch = 79 }

apply_power_config-IsApplied_example :
    IsApplied aee v79 refl
      (granted_mask 5)
      (votes_of_all 79 (7 ∷ 8 ∷ []))
      []
      (apply_power_config aee History (remote_set_power aee v79) (7 ∷ 8 ∷ []) power_max [])
apply_power_config-IsApplied_example = apply_power_config-IsApplied aee v79 refl 7 (8 ∷ []) []
