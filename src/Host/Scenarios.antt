-- ===== src/Host/Scenarios.antt =====
-- The tables of scenarios of host/cdsp_peak.c, `hmx_scenario_enabled`, and the sizes of the HMX
-- buffers. Operations per round are doubles in the source, with whole values.
pub mod Laws
use Prim.Native.String.{String}
use cdsp_peak.Base.{
  ℕ, zero, suc, ◌+◌, ◌*◌, Bool, true, false, not, ◌||◌, Option, none, some, List, [], ◌∷◌, ltb, leb,
  ◌==◌, if◌then◌else◌, codes, same_text,
}
use cdsp_peak.Base.Int.{ℤ, pos, negsuc, not_positive, to_ℕ}
use cdsp_peak.Host.Options.{Options}
use cdsp_peak.Host.Filter.{scenario_enabled}

pub record ComputeScenario : Type 0 where
  pub name : List ℕ
  pub unit : List ℕ
  pub kernel : ℕ
  pub ops_per_iter : ℕ
  pub start_iterations : ℕ
  pub iteration_group : ℕ

abbrev compute_row : String → String → ℕ → ℕ → ℕ → ComputeScenario
compute_row name unit kernel ops group = record {
  name = codes name;
  unit = codes unit;
  kernel = kernel;
  ops_per_iter = ops;
  start_iterations = 10000;
  iteration_group = group;
}

abbrev pub compute_scenarios : List ComputeScenario
compute_scenarios =
    compute_row "fp32-vmuladd" "GFLOPS" 0 (8 * 32 * 2) 0
    ∷ compute_row "fp16-vmpyacc" "GFLOPS" 1 (8 * 64 * 2) 0
    ∷ compute_row "qf16-vmpyadd" "GFLOPS" 4 (8 * 64 * 2) 0
    ∷ compute_row "qf32-vmpyadd" "GFLOPS" 5 (8 * 32 * 2) 0
    ∷ compute_row "int8-vrmpyacc" "GIOPS" 2 (8 * 32 * 4 * 2) 1
    ∷ compute_row "int8-vrmpy-add" "GIOPS" 3 (8 * 32 * 4 * 2) 1
    ∷ []

-- `bytes_scale`, a double in the source, has whole values.
pub record MemScenario : Type 0 where
  pub name : List ℕ
  pub kind : ℕ
  pub bytes_scale : ℕ

abbrev pub mem_scenarios : List MemScenario
mem_scenarios =
    record { name = codes "mem-read"; kind = 0; bytes_scale = 1 }
    ∷ record { name = codes "mem-write"; kind = 1; bytes_scale = 1 }
    ∷ record { name = codes "mem-copy"; kind = 2; bytes_scale = 2 }
    ∷ []

pub record HmxScenario : Type 0 where
  pub name : List ℕ
  pub mode : ℕ
  pub unit : List ℕ
  pub ops_per_repeat : ℕ
  pub start_repeats : ℕ
  pub activation_bytes : ℕ
  pub weight_bytes : ℕ
  pub output_bytes : ℕ
  pub default_enabled : Bool
  pub default_min_arch : ℕ

abbrev hmx_row : String → ℕ → String → ℕ → ℕ → ℕ → ℕ → ℕ → HmxScenario
hmx_row name mode unit ops activation weight output min_arch = record {
  name = codes name;
  mode = mode;
  unit = codes unit;
  ops_per_repeat = ops;
  start_repeats = 1;
  activation_bytes = activation;
  weight_bytes = weight;
  output_bytes = output;
  default_enabled = true;
  default_min_arch = min_arch;
}

abbrev pub hmx_scenarios : List HmxScenario
hmx_scenarios =
    hmx_row "hmx-resource" 100 "probe" 0 1024 1024 16 0
    ∷ hmx_row "hmx-cached" 101 "probe" 0 1024 1024 16 0
    ∷ hmx_row "hmx-lock" 102 "probe" 0 1024 1024 16 0
    ∷ hmx_row "hmx-int8-ub" 0 "GIOPS" (32 * 32 * 32 * 2) 1024 1024 1024 0
    ∷ hmx_row "hmx-int8-cm-ub" 1 "GIOPS" (32 * 32 * 32 * 2) 1024 1024 1024 0
    ∷ hmx_row "hmx-int8-uh" 2 "GIOPS" (32 * 32 * 32 * 2) 1024 1024 2048 0
    ∷ hmx_row "hmx-int8-ub-x16" 10 "GIOPS" (16 * 32 * 32 * 32 * 2) 1024 1024 1024 0
    ∷ hmx_row "hmx-int8-uh-x16" 11 "GIOPS" (16 * 32 * 32 * 32 * 2) 1024 1024 2048 0
    ∷ hmx_row "hmx-int8-ub-full-x16" 12 "GIOPS" (16 * 32 * 64 * 32 * 2) 1024 1024 2048 0
    ∷ hmx_row "hmx-int8-ub-full-x32" 13 "GIOPS" (32 * 32 * 64 * 32 * 2) 1024 1024 2048 0
    ∷ hmx_row "hmx-int8-ub-full-x64" 14 "GIOPS" (64 * 32 * 64 * 32 * 2) 1024 1024 2048 0
    ∷ hmx_row "hmx-int8-uh2x2-full-x64" 15 "GIOPS" (64 * 32 * 128 * 32 * 2) 1024 1024 8192 69
    ∷ hmx_row "hmx-int8-ub-adeep32" 16 "GIOPS" (32 * 32 * 32 * 32 * 2) (32 * 1024) (32 * 1024) 1024
        0
    ∷ hmx_row "hmx-int8-ub-wdeep-full-x64" 17 "GIOPS" (64 * 32 * 64 * 32 * 2) 1024 (2 * 1024) 2048 0
    ∷ hmx_row "hmx-fp16-hf-x64" 18 "GFLOPS" (64 * 32 * 32 * 32 * 2) 2048 2048 2048 0
    ∷ hmx_row "hmx-int4-ub-wn2x-full-x64" 19 "GIOPS" (64 * 32 * 128 * 32 * 2) 1024 1024 2048 73
    ∷ []

-- `arch <= 0 || arch >= default_min_arch`
abbrev reaches : ℤ → ℕ → Bool
reaches arch min_arch = not_positive arch || leb min_arch (to_ℕ arch)

unfoldable pub hmx_scenario_enabled : Options → HmxScenario → ℤ → Bool
hmx_scenario_enabled opt scenario arch =
    if same_text opt.scenario_filter (codes "all")
    then (if not scenario.default_enabled then false else reaches arch scenario.default_min_arch)
    else scenario_enabled opt scenario.name

-- One round of the three `max_enabled_hmx_*_bytes`: the size so far, the row's, whether it is enabled.
abbrev pub larger_bytes : ℕ → ℕ → Bool → ℕ
larger_bytes bytes of_row enabled =
    if not enabled then bytes else if ltb bytes of_row then of_row else bytes

-- Their loop, over the rows that are left.
unfoldable pub max_enabled : (HmxScenario → ℕ) → Options → ℤ → List HmxScenario → ℕ → ℕ
max_enabled bytes_of opt arch [] bytes = bytes
max_enabled bytes_of opt arch (sc ∷ scs) bytes =
    max_enabled bytes_of opt arch scs
      (larger_bytes bytes (bytes_of sc) (hmx_scenario_enabled opt sc arch))

unfoldable pub max_enabled_hmx_activation_bytes : Options → ℤ → ℕ
max_enabled_hmx_activation_bytes opt arch =
    max_enabled (λ sc. sc.activation_bytes) opt arch hmx_scenarios 0

unfoldable pub max_enabled_hmx_weight_bytes : Options → ℤ → ℕ
max_enabled_hmx_weight_bytes opt arch = max_enabled (λ sc. sc.weight_bytes) opt arch hmx_scenarios 0

unfoldable pub max_enabled_hmx_output_bytes : Options → ℤ → ℕ
max_enabled_hmx_output_bytes opt arch = max_enabled (λ sc. sc.output_bytes) opt arch hmx_scenarios 0

-- The loop over the rows that are left.
unfoldable pub any_mem_scenario_enabled : Options → List MemScenario → Bool
any_mem_scenario_enabled opt [] = false
any_mem_scenario_enabled opt (sc ∷ scs) =
    scenario_enabled opt sc.name || any_mem_scenario_enabled opt scs

-- The same for HMX, where the architecture 0 counts as unknown.
unfoldable pub any_hmx_scenario_enabled : Options → List HmxScenario → Bool
any_hmx_scenario_enabled opt [] = false
any_hmx_scenario_enabled opt (sc ∷ scs) =
    hmx_scenario_enabled opt sc (pos 0) || any_hmx_scenario_enabled opt scs
