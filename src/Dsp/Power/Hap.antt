-- ===== src/Dsp/Power/Hap.antt =====
-- dsp/cdsp_peak_hap_power.h: the requests of `HAP_power_set`. The union of `HAP_power_request_t` with
-- its tag `type` is a data type; each payload has the fields of its struct.
use Prim.Native.Nat.{ℕ}
use mathlib.Core.Bool.{Bool, false}

-- `HAP_core_params_t`, also `HAP_bus_params_t`
pub record CoreParams : Type 0 where
  pub target_corner : ℕ
  pub min_corner : ℕ
  pub max_corner : ℕ
  pub param1 : ℕ
  pub param2 : ℕ
  pub param3 : ℕ

-- `HAP_dcvs_v3_params_t`
pub record DcvsParams : Type 0 where
  pub param1 : ℕ
  pub param2 : ℕ
  pub param3 : ℕ
  pub param4 : ℕ
  pub param5 : ℕ
  pub param6 : ℕ

-- `HAP_power_dcvs_v3_payload`
pub record DcvsV3 : Type 0 where
  pub set_dcvs_enable : Bool
  pub dcvs_enable : Bool
  pub dcvs_option : ℕ
  pub set_latency : Bool
  pub latency : ℕ
  pub set_core_params : Bool
  pub core_params : CoreParams
  pub set_bus_params : Bool
  pub bus_params : CoreParams
  pub set_dcvs_v3_params : Bool
  pub dcvs_v3_params : DcvsParams
  pub set_sleep_disable : Bool
  pub sleep_disable : ℕ

-- `HAP_power_hmx_payload_v2`
pub record HmxV2 : Type 0 where
  pub set_power : Bool
  pub power_up : Bool
  pub set_clock : Bool
  pub pick_default : Bool
  pub target_corner : ℕ
  pub min_corner : ℕ
  pub max_corner : ℕ
  pub perf_mode : ℕ
  pub freq_mhz : ℕ
  pub floor_freq_mhz : ℕ
  pub param1 : ℕ
  pub param2 : ℕ
  pub param3 : ℕ

-- `HAP_power_request_t`, by its `type`
pub data Request : Type 0 where
  apptype : ℕ → Request
  dcvs_v3 : DcvsV3 → Request
  hvx : Bool → Request
  hmx : Bool → Request
  hmx_v2 : HmxV2 → Request

-- the numbers of `HAP_Power_request_type`
abbrev pub request_type : Request → ℕ
request_type (apptype a) = 3
request_type (dcvs_v3 p) = 12
request_type (hvx up) = 2
request_type (hmx up) = 13
request_type (hmx_v2 p) = 14

abbrev pub hap_power_compute_client_class : ℕ
hap_power_compute_client_class = 4

abbrev pub hap_dcvs_vcorner_max : ℕ
hap_dcvs_vcorner_max = 255

abbrev pub hap_dcvs_exp_vcorner_max : ℕ
hap_dcvs_exp_vcorner_max = 0xffff

abbrev pub hap_clk_perf_high : ℕ
hap_clk_perf_high = 0

abbrev pub hap_dcvs_v2_performance_mode : ℕ
hap_dcvs_v2_performance_mode = 0x10

-- `memset(&request, 0, sizeof(request))`, seen through each payload
abbrev pub zero_core_params : CoreParams
zero_core_params = record {
  target_corner = 0;
  min_corner = 0;
  max_corner = 0;
  param1 = 0;
  param2 = 0;
  param3 = 0;
}

abbrev pub zero_dcvs_v3 : DcvsV3
zero_dcvs_v3 = record {
  set_dcvs_enable = false;
  dcvs_enable = false;
  dcvs_option = 0;
  set_latency = false;
  latency = 0;
  set_core_params = false;
  core_params = zero_core_params;
  set_bus_params = false;
  bus_params = zero_core_params;
  set_dcvs_v3_params = false;
  dcvs_v3_params = record {
    param1 = 0;
    param2 = 0;
    param3 = 0;
    param4 = 0;
    param5 = 0;
    param6 = 0;
  };
  set_sleep_disable = false;
  sleep_disable = 0;
}

abbrev pub zero_hmx_v2 : HmxV2
zero_hmx_v2 = record {
  set_power = false;
  power_up = false;
  set_clock = false;
  pick_default = false;
  target_corner = 0;
  min_corner = 0;
  max_corner = 0;
  perf_mode = 0;
  freq_mhz = 0;
  floor_freq_mhz = 0;
  param1 = 0;
  param2 = 0;
  param3 = 0;
}
