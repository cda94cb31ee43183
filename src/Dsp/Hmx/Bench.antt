-- ===== src/Dsp/Hmx/Bench.antt =====
-- `cdsp_peak_bench_hmx_int8` of dsp/cdsp_peak_hmx.c.
pub mod Held
pub mod Regions
pub mod Confined
pub mod Output
use cdsp_peak.Base.{
  ℕ, zero, suc, ◌+◌, ◌-◌, ◌*◌, ◌/◌, ◌%◌, ◌^◌, Bool, true, false, not, ◌&&◌, ◌||◌, Option, none,
  some, List, [], ◌∷◌, ◌++◌, length, take, drop, replicate, u32, ltb, ◌==◌, if◌then◌else◌,
}
use cdsp_peak.Base.Int.{ℤ, pos, not_positive, to_ℕ, nonzero}
use cdsp_peak.Aee.{AeeCodes, aee_success}
use cdsp_peak.Fnv.{fnv_basis}
use cdsp_peak.Fnv.Indexed.{mix_from}
use cdsp_peak.Dsp.Clock.{elapsed_cycles, read_cycles, measure_timer_overhead}
use cdsp_peak.Dsp.Hmx.Api
use cdsp_peak.Dsp.Hmx.Api.{Trace}
use cdsp_peak.Dsp.Hmx.Resource.{HmxResource, clear_low, hmx_resource_acquire, hmx_resource_release}
use cdsp_peak.Dsp.Hmx.Memory.{Memory, write_block, read_block}
use cdsp_peak.Dsp.Hmx.Modes.{
  HmxMode, ModeConfig, mode_config, decode_mode, hmx_tile_u8_bytes, hmx_bias_bytes,
}
use cdsp_peak.Dsp.Hmx.Tiles.{Instr, Layout, tile}

-- What lies below the code: the counter, the resource manager, `__HMX_ARCH__` of the build, and the
-- HMX unit, which has a state of its own (accumulators, bias) and works on the memory.
pub record Device : Type 1 where
  pub Unit_state : Type 0
  pub exec : Instr → Unit_state × Memory → Unit_state × Memory
  pub clock : ℕ → ℕ
  pub api : Api.Api
  pub hmx_arch : ℕ

-- `checksum_hmx_output`
pub checksum_hmx_output : List ℕ → ℕ → ℕ
checksum_hmx_output bytes len = mix_from 0 fnv_basis (take len bytes)

-- `align_up_uintptr` at the alignment 2^k: a pointer of the DSP has 32 bits.
abbrev pub align_up : ℕ → ℕ → ℕ
align_up k value = clear_low k (u32 (value + 2 ^ k - 1))

abbrev pub required_vtcm : ModeConfig → ℕ
required_vtcm c =
    c.activation_vtcm_len + c.weight_vtcm_len + hmx_tile_u8_bytes + hmx_bias_bytes + c.written_len
    + 128

abbrev pub layout_at : ModeConfig → ℕ → Layout
layout_at c base =
    let weight = base + c.activation_vtcm_len in
    let weight2 = weight + c.weight_vtcm_len in
    let bias = weight2 + hmx_tile_u8_bytes in
    record {
      activation = base;
      weight = weight;
      weight2 = weight2;
      bias = bias;
      output = bias + hmx_bias_bytes;
    }

-- `aligned_base + required_vtcm <= vtcm + vtcm_size`, on 32-bit pointers
abbrev pub fits : ModeConfig → HmxResource → Bool
fits c res =
    not (ltb (u32 (res.vtcm + res.vtcm_size)) (u32 (align_up 7 res.vtcm + required_vtcm c)))

-- A `uint32_t` as bytes in memory, the lowest first.
abbrev pub le32 : ℕ → List ℕ
le32 w = w % 256 ∷ w / 2 ^ 8 % 256 ∷ w / 2 ^ 16 % 256 ∷ w / 2 ^ 24 % 256 ∷ []

abbrev bool_word : Bool → ℕ
bool_word b = if b then 1 else 0

abbrev pub probe_bytes : HmxResource → List ℕ
probe_bytes res =
    le32 res.rctx
    ++ le32 res.vtcm_size
    ++ le32 (bool_word res.cached)
    ++ le32 (bool_word res.locked)

-- `hmx_init_fp16_scales`: rounds of four bytes over the first 128, the rest cleared.
abbrev pub hmx_init_fp16_scales : List ℕ
hmx_init_fp16_scales = scales 32 ++ replicate 128 0
  where
    scales : ℕ → List ℕ
    scales zero = []
    scales (suc n) = 0x00 ∷ 0x3c ∷ 0 ∷ 0 ∷ scales n

pub bias_bytes : HmxMode → List ℕ
bias_bytes HmxMode.fp16_hf_x64 = hmx_init_fp16_scales
bias_bytes m = replicate hmx_bias_bytes 0

-- `memset` or `memcpy` of the first bytes of a buffer.
abbrev pub overwrite : List ℕ → List ℕ → List ℕ
overwrite bytes buf = bytes ++ drop (length bytes) buf

-- The copies into VTCM before the loop.
pub stage : HmxMode → Layout → List ℕ → List ℕ → Memory → Memory
unfolding bias_bytes
stage m l activation weight mem =
    let c = mode_config m in
    write_block l.output (replicate c.written_len 0) (
      write_block l.bias (bias_bytes m) (
        write_block l.weight2 (take hmx_tile_u8_bytes weight) (
          write_block l.weight (take c.weight_vtcm_len weight)
            (write_block l.activation (take c.activation_vtcm_len activation) mem))))

module _ (codes : AeeCodes) (d : Device) where
  open d use {Unit_state, exec, clock, api, hmx_arch}

  pub record Sys : Type 0 where
    pub trace : Trace
    pub reads : ℕ
    pub unit : Unit_state
    pub memory : Memory

  -- `*cycles` and `*checksum` are written on success only.
  pub record Reply : Type 0 where
    pub ret : ℤ
    pub output : List ℕ
    pub outs : Option (ℕ × ℕ)
    pub sys : Sys

  abbrev pub reply : ℤ → List ℕ → Option (ℕ × ℕ) → Sys → Reply
  reply ret output outs s = record { ret = ret; output = output; outs = outs; sys = s }

  abbrev pub released : HmxResource → Sys → Sys
  released res s = record s { trace = (hmx_resource_release res s.trace).1 }

  pub exec_all : List Instr → Unit_state × Memory → Unit_state × Memory
  exec_all [] s = s
  exec_all (i ∷ is) s = exec_all is (exec i s)

  -- The rounds of the loop that are left; the error of a tile that this build does not have.
  pub run_repeats : ℕ → HmxMode → Layout → Unit_state × Memory → ℤ × Unit_state × Memory
  run_repeats zero m l s = (aee_success, s.0, s.1)
  run_repeats (suc n) m l s = elim (tile hmx_arch m l) [
    | none ↦ (codes.eunsupported, s.0, s.1)
    | some is ↦ run_repeats n m l (exec_all is s)
  ]

  -- The probe's answer, `if (is_probe)`.
  pub answer_probe : ModeConfig → HmxResource → List ℕ → Sys → Reply
  answer_probe c res output s =
      let output' = overwrite (probe_bytes res) (overwrite (replicate c.written_len 0) output) in
      reply aee_success output' (some (0, checksum_hmx_output output' c.written_len))
        (released res s)

  -- From `measure_timer_overhead_hmx` on, with the inputs staged.
  pub measure : HmxMode → Layout → HmxResource → ℕ → List ℕ → Sys → Reply
  measure m l res repeats output s =
      let c = mode_config m in
      let (overhead, reads₁) = measure_timer_overhead clock s.reads in
      let (start, reads₂) = read_cycles clock reads₁ in
      let (err, unit, mem) = run_repeats repeats m l (s.unit, s.memory) in
      let s₁ = record s { reads = reads₂; unit = unit; memory = mem } in
      if nonzero err
      then reply err output none (released res s₁)
      else let (end, reads₃) = read_cycles clock reads₂ in
        let output' = overwrite (read_block mem l.output c.written_len) output in
        reply aee_success output'
          (some (elapsed_cycles overhead start end, checksum_hmx_output output' c.written_len))
          (released res (record s₁ { reads = reads₃ }))

  -- With the resource acquired.
  pub bench_acquired : HmxMode → HmxResource → ℕ → List ℕ → List ℕ → List ℕ → Sys → Reply
  bench_acquired m res repeats activation weight output s =
      let c = mode_config m in
      if c.is_probe
      then answer_probe c res output s
      else if not (fits c res)
      then reply codes.enomemory output none (released res s)
      else let l = layout_at c (align_up 7 res.vtcm) in
        measure m l res repeats (overwrite (replicate c.written_len 0) output)
          (record s { memory = stage m l activation weight s.memory })

  -- With the mode decoded. A length that is passed is the length of its buffer.
  pub bench_mode : HmxMode → ℕ → List ℕ → List ℕ → List ℕ → Sys → Reply
  bench_mode m repeats activation weight output s =
      let c = mode_config m in
      if ltb (length activation) c.activation_vtcm_len || ltb (length weight) c.weight_vtcm_len
      then reply codes.ebadparm output none s
      else if ltb (length output) c.written_len
      then reply codes.ebadparm output none s
      else let (err, res, t) =
          hmx_resource_acquire codes api (u32 (required_vtcm c)) c.use_cached c.use_lock s.trace in
        let s₁ = record s { trace = t } in
        if nonzero err
        then reply err output none s₁
        else bench_acquired m res repeats activation weight output s₁

  -- `cdsp_peak_bench_hmx_int8`. `given` tells whether the five pointers are there.
  pub bench_hmx_int8 : Bool → ℤ → ℤ → List ℕ → List ℕ → List ℕ → Sys → Reply
  bench_hmx_int8 given mode repeats activation weight output s =
      if not given || not_positive repeats
      then reply codes.ebadparm output none s
      else elim (decode_mode mode) [
        | none ↦ reply codes.ebadparm output none s
        | some m ↦ bench_mode m (to_ℕ repeats) activation weight output s
      ]
