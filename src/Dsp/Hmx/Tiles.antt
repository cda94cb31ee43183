-- ===== src/Dsp/Hmx/Tiles.antt =====
-- The tile routines of dsp/cdsp_peak_hmx.c, each as the sequence of HMX instructions that it issues.
-- An instruction is named for its intrinsic (`Q6_*`, of the Hexagon tools) and carries its operands.
pub mod Laws
pub mod Built
use cdsp_peak.Base.{
  ℕ, zero, suc, ◌+◌, ◌-◌, ◌*◌, ◌/◌, Option, none, some, List, [], ◌∷◌, ◌++◌, leb, if◌then◌else◌,
}
use cdsp_peak.Dsp.Hmx.Modes.{
  HmxMode, hmx_tile_u8_bytes, hmx_tile_u16_bytes, hmx_tile_u16_2x2_bytes, hmx_deep_tiles,
}

pub data Instr : Type 0 where
  mxclracc mxclracc_hf : Instr
  bias_mxmem2 : (address : ℕ) → Instr
  activation_ub activation_ub_cm activation_ub_deep activation_hf : (address limit : ℕ) → Instr
  weight_b weight_b_deep weight_hf weight_n_2x : (address limit : ℕ) → Instr
  store_after_sat_ub store_before_retain_sat_ub store_after_cm_sat_ub : (address : ℕ) → Instr
  store_after_sat_uh_2x1 store_before_retain_sat_uh_2x2 store_after_sat_uh_2x2 :
      (address : ℕ) → Instr
  store_after_hf : (address : ℕ) → Instr

-- The pointers into VTCM that the benchmark passes.
pub record Layout : Type 0 where
  pub activation : ℕ
  pub weight : ℕ
  pub weight2 : ℕ
  pub bias : ℕ
  pub output : ℕ

-- `n` calls in a row of one inlined routine.
abbrev pub times : ℕ → List Instr → List Instr
times zero is = []
times (suc n) is = is ++ times n is

pub hmx_int8_tile_ub : Layout → List Instr
hmx_int8_tile_ub l =
    mxclracc
    ∷ activation_ub l.activation (hmx_tile_u8_bytes - 1)
    ∷ weight_b l.weight (hmx_tile_u8_bytes - 1)
    ∷ store_after_sat_ub l.output
    ∷ []

pub hmx_int8_tile_cm_ub : Layout → List Instr
hmx_int8_tile_cm_ub l =
    mxclracc
    ∷ bias_mxmem2 l.bias
    ∷ activation_ub_cm l.activation 0x1c
    ∷ weight_b l.weight (hmx_tile_u8_bytes - 1)
    ∷ activation_ub_cm l.activation 0x1c
    ∷ weight_b l.weight2 (hmx_tile_u8_bytes - 1)
    ∷ store_after_cm_sat_ub l.output
    ∷ []

pub hmx_int8_tile_uh : Layout → List Instr
hmx_int8_tile_uh l =
    mxclracc
    ∷ activation_ub l.activation (hmx_tile_u8_bytes - 1)
    ∷ weight_b l.weight (hmx_tile_u8_bytes - 1)
    ∷ store_after_sat_uh_2x1 l.output
    ∷ []

pub hmx_int8_accumulate_ub : Layout → List Instr
hmx_int8_accumulate_ub l =
    activation_ub l.activation (hmx_tile_u8_bytes - 1)
    ∷ weight_b l.weight (hmx_tile_u8_bytes - 1)
    ∷ []

pub hmx_int8_accumulate_ub_wdeep : Layout → List Instr
hmx_int8_accumulate_ub_wdeep l =
    activation_ub l.activation (hmx_tile_u8_bytes - 1)
    ∷ weight_b_deep l.weight (2 * hmx_tile_u8_bytes - 1)
    ∷ []

pub hmx_int8_accumulate_ub_x16 : Layout → List Instr
hmx_int8_accumulate_ub_x16 l = times 16 (hmx_int8_accumulate_ub l)

pub hmx_int8_accumulate_ub_wdeep_x16 : Layout → List Instr
hmx_int8_accumulate_ub_wdeep_x16 l = times 16 (hmx_int8_accumulate_ub_wdeep l)

pub hmx_fp16_accumulate_hf : Layout → List Instr
hmx_fp16_accumulate_hf l =
    activation_hf l.activation (hmx_tile_u16_bytes - 1)
    ∷ weight_hf l.weight (hmx_tile_u16_bytes - 1)
    ∷ []

pub hmx_fp16_accumulate_hf_x16 : Layout → List Instr
hmx_fp16_accumulate_hf_x16 l = times 16 (hmx_fp16_accumulate_hf l)

pub hmx_fp16_tile_hf_x64 : Layout → List Instr
hmx_fp16_tile_hf_x64 l =
    bias_mxmem2 l.bias ∷ mxclracc_hf ∷ times 4 (hmx_fp16_accumulate_hf_x16 l)
    ++ (store_after_hf l.output ∷ [])

pub hmx_int4_accumulate_ub_wn2x : Layout → List Instr
hmx_int4_accumulate_ub_wn2x l =
    activation_ub l.activation (hmx_tile_u8_bytes - 1)
    ∷ weight_n_2x l.weight (hmx_tile_u8_bytes - 1)
    ∷ []

pub hmx_int4_accumulate_ub_wn2x_x16 : Layout → List Instr
hmx_int4_accumulate_ub_wn2x_x16 l = times 16 (hmx_int4_accumulate_ub_wn2x l)

-- The two stores of the `full` tiles: the low half, then the high half.
abbrev pub store_full : Layout → List Instr
store_full l =
    store_before_retain_sat_ub l.output ∷ store_after_sat_ub (l.output + hmx_tile_u8_bytes) ∷ []

-- `none` is `AEE_EUNSUPPORTED`: the build is for an older `__HMX_ARCH__`.
pub hmx_int4_tile_ub_wn2x_full_x64 : ℕ → Layout → Option (List Instr)
hmx_int4_tile_ub_wn2x_full_x64 hmx_arch l =
    if leb 73 hmx_arch
    then some (mxclracc ∷ times 4 (hmx_int4_accumulate_ub_wn2x_x16 l) ++ store_full l)
    else none

pub hmx_int8_tile_ub_adeep32 : Layout → List Instr
hmx_int8_tile_ub_adeep32 l =
    mxclracc
    ∷ activation_ub_deep l.activation (hmx_deep_tiles * hmx_tile_u8_bytes - 1)
    ∷ weight_b l.weight (hmx_deep_tiles * hmx_tile_u8_bytes - 1)
    ∷ store_after_sat_ub l.output
    ∷ []

pub hmx_int8_tile_ub_x16 : Layout → List Instr
hmx_int8_tile_ub_x16 l =
    mxclracc ∷ hmx_int8_accumulate_ub_x16 l ++ (store_after_sat_ub l.output ∷ [])

pub hmx_int8_tile_ub_full_x16 : Layout → List Instr
hmx_int8_tile_ub_full_x16 l = mxclracc ∷ hmx_int8_accumulate_ub_x16 l ++ store_full l

pub hmx_int8_tile_ub_full_x32 : Layout → List Instr
hmx_int8_tile_ub_full_x32 l = mxclracc ∷ times 2 (hmx_int8_accumulate_ub_x16 l) ++ store_full l

pub hmx_int8_tile_ub_full_x64 : Layout → List Instr
hmx_int8_tile_ub_full_x64 l = mxclracc ∷ times 4 (hmx_int8_accumulate_ub_x16 l) ++ store_full l

pub hmx_int8_tile_ub_wdeep_full_x64 : Layout → List Instr
hmx_int8_tile_ub_wdeep_full_x64 l =
    mxclracc ∷ times 4 (hmx_int8_accumulate_ub_wdeep_x16 l) ++ store_full l

-- The two stores of the 2x2 shape.
abbrev pub store_2x2 : Layout → List Instr
store_2x2 l =
    store_before_retain_sat_uh_2x2 l.output
    ∷ store_after_sat_uh_2x2 (l.output + hmx_tile_u16_2x2_bytes / 2)
    ∷ []

pub hmx_int8_tile_uh2x2_full_x64 : ℕ → Layout → Option (List Instr)
hmx_int8_tile_uh2x2_full_x64 hmx_arch l =
    if leb 69 hmx_arch
    then some (mxclracc ∷ times 4 (hmx_int8_accumulate_ub_x16 l) ++ store_2x2 l)
    else none

pub hmx_int8_tile_uh_x16 : Layout → List Instr
hmx_int8_tile_uh_x16 l =
    mxclracc ∷ hmx_int8_accumulate_ub_x16 l ++ (store_after_sat_uh_2x1 l.output ∷ [])

-- The switch in the benchmark's loop. A probe does not get there; it would do nothing.
unfoldable pub tile : ℕ → HmxMode → Layout → Option (List Instr)
tile arch HmxMode.int8_ub l = some (hmx_int8_tile_ub l)
tile arch HmxMode.int8_cm_ub l = some (hmx_int8_tile_cm_ub l)
tile arch HmxMode.int8_uh l = some (hmx_int8_tile_uh l)
tile arch HmxMode.int8_ub_x16 l = some (hmx_int8_tile_ub_x16 l)
tile arch HmxMode.int8_ub_adeep32 l = some (hmx_int8_tile_ub_adeep32 l)
tile arch HmxMode.int8_ub_full_x16 l = some (hmx_int8_tile_ub_full_x16 l)
tile arch HmxMode.int8_ub_full_x32 l = some (hmx_int8_tile_ub_full_x32 l)
tile arch HmxMode.int8_ub_full_x64 l = some (hmx_int8_tile_ub_full_x64 l)
tile arch HmxMode.int8_ub_wdeep_full_x64 l = some (hmx_int8_tile_ub_wdeep_full_x64 l)
tile arch HmxMode.fp16_hf_x64 l = some (hmx_fp16_tile_hf_x64 l)
tile arch HmxMode.int4_ub_wn2x_full_x64 l = hmx_int4_tile_ub_wn2x_full_x64 arch l
tile arch HmxMode.int8_uh2x2_full_x64 l = hmx_int8_tile_uh2x2_full_x64 arch l
tile arch HmxMode.int8_uh_x16 l = some (hmx_int8_tile_uh_x16 l)
tile arch HmxMode.probe_resource l = some []
tile arch HmxMode.probe_cached l = some []
tile arch HmxMode.probe_lock l = some []
