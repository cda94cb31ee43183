-- ===== src/Dsp/Hmx/Modes.antt =====
-- The modes of `cdsp_peak_bench_hmx_int8` (dsp/cdsp_peak_hmx.c; host/cdsp_peak.c defines the same
-- numbers) and what its first two switches set for each.
use cdsp_peak.Base.{ℕ, ◌*◌, Bool, true, false, Option, none, some, ◌==◌, if◌then◌else◌}
use cdsp_peak.Base.Int.{ℤ, pos, negsuc}

pub data HmxMode : Type 0 where
  int8_ub int8_cm_ub int8_uh int8_ub_x16 int8_uh_x16 : HmxMode
  int8_ub_full_x16 int8_ub_full_x32 int8_ub_full_x64 int8_uh2x2_full_x64 : HmxMode
  int8_ub_adeep32 int8_ub_wdeep_full_x64 fp16_hf_x64 int4_ub_wn2x_full_x64 : HmxMode
  probe_resource probe_cached probe_lock : HmxMode

-- The numbers of the `CDSP_PEAK_HMX_*` macros.
abbrev pub mode_number : HmxMode → ℕ
mode_number int8_ub = 0
mode_number int8_cm_ub = 1
mode_number int8_uh = 2
mode_number int8_ub_x16 = 10
mode_number int8_uh_x16 = 11
mode_number int8_ub_full_x16 = 12
mode_number int8_ub_full_x32 = 13
mode_number int8_ub_full_x64 = 14
mode_number int8_uh2x2_full_x64 = 15
mode_number int8_ub_adeep32 = 16
mode_number int8_ub_wdeep_full_x64 = 17
mode_number fp16_hf_x64 = 18
mode_number int4_ub_wn2x_full_x64 = 19
mode_number probe_resource = 100
mode_number probe_cached = 101
mode_number probe_lock = 102

decode_number : ℕ → Option HmxMode
decode_number n =
    if n == 0
    then some int8_ub
    else if n == 1
    then some int8_cm_ub
    else if n == 2
    then some int8_uh
    else if n == 10
    then some int8_ub_x16
    else if n == 11
    then some int8_uh_x16
    else if n == 12
    then some int8_ub_full_x16
    else if n == 13
    then some int8_ub_full_x32
    else if n == 14
    then some int8_ub_full_x64
    else if n == 15
    then some int8_uh2x2_full_x64
    else if n == 16
    then some int8_ub_adeep32
    else if n == 17
    then some int8_ub_wdeep_full_x64
    else if n == 18
    then some fp16_hf_x64
    else if n == 19
    then some int4_ub_wn2x_full_x64
    else if n == 100
    then some probe_resource
    else if n == 101
    then some probe_cached
    else if n == 102
    then some probe_lock
    else none

-- The cases of `switch (mode)`; `none` is its `default`.
unfoldable pub decode_mode : ℤ → Option HmxMode
unfolding decode_number
decode_mode (pos n) = decode_number n
decode_mode (negsuc n) = none

abbrev pub hmx_tile_u8_bytes : ℕ
hmx_tile_u8_bytes = 1024

abbrev pub hmx_tile_u16_bytes : ℕ
hmx_tile_u16_bytes = 2048

abbrev pub hmx_tile_u16_2x2_bytes : ℕ
hmx_tile_u16_2x2_bytes = 8192

abbrev pub hmx_deep_tiles : ℕ
hmx_deep_tiles = 32

abbrev pub hmx_bias_bytes : ℕ
hmx_bias_bytes = 256

-- The locals that the switches set.
pub record ModeConfig : Type 0 where
  pub written_len : ℕ
  pub activation_vtcm_len : ℕ
  pub weight_vtcm_len : ℕ
  pub is_probe : Bool
  pub use_cached : Bool
  pub use_lock : Bool

-- The initial values, with `written_len` still to be set.
abbrev default_config : ℕ → ModeConfig
default_config written = record {
  written_len = written;
  activation_vtcm_len = hmx_tile_u8_bytes;
  weight_vtcm_len = hmx_tile_u8_bytes;
  is_probe = false;
  use_cached = true;
  use_lock = true;
}

-- The first switch.
abbrev pub switch_config : HmxMode → ModeConfig
switch_config int8_ub = default_config hmx_tile_u8_bytes
switch_config int8_cm_ub = default_config hmx_tile_u8_bytes
switch_config int8_ub_x16 = default_config hmx_tile_u8_bytes
switch_config int8_ub_adeep32 = record (default_config hmx_tile_u8_bytes) {
  activation_vtcm_len = hmx_deep_tiles * hmx_tile_u8_bytes;
  weight_vtcm_len = hmx_deep_tiles * hmx_tile_u8_bytes;
}
switch_config int8_ub_full_x16 = default_config hmx_tile_u16_bytes
switch_config int8_ub_full_x32 = default_config hmx_tile_u16_bytes
switch_config int8_ub_full_x64 = default_config hmx_tile_u16_bytes
switch_config int8_ub_wdeep_full_x64 = default_config hmx_tile_u16_bytes
switch_config int4_ub_wn2x_full_x64 = default_config hmx_tile_u16_bytes
switch_config fp16_hf_x64 = default_config hmx_tile_u16_bytes
switch_config int8_uh2x2_full_x64 = default_config hmx_tile_u16_2x2_bytes
switch_config int8_uh = default_config hmx_tile_u16_bytes
switch_config int8_uh_x16 = default_config hmx_tile_u16_bytes
switch_config probe_resource = record (default_config 16) {
  is_probe = true;
  use_cached = false;
  use_lock = false;
}
switch_config probe_cached = record (default_config 16) { is_probe = true; use_lock = false }
switch_config probe_lock = record (default_config 16) { is_probe = true }

-- The `if` behind the switch, which changes the lengths of two modes.
unfoldable pub mode_config : HmxMode → ModeConfig
mode_config int8_ub_wdeep_full_x64 = record (switch_config int8_ub_wdeep_full_x64) {
  weight_vtcm_len = 2 * hmx_tile_u8_bytes;
}
mode_config fp16_hf_x64 = record (switch_config fp16_hf_x64) {
  activation_vtcm_len = hmx_tile_u16_bytes;
  weight_vtcm_len = hmx_tile_u16_bytes;
}
mode_config m = switch_config m
