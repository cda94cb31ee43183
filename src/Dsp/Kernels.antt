-- ===== src/Dsp/Kernels.antt =====
-- The compute kernels of dsp/cdsp_peak_imp.c, the checksum of their accumulators, and
-- `cdsp_peak_open`, `cdsp_peak_get_info` and `cdsp_peak_bench_compute`.
mod Accumulators
pub mod Laws
pub mod Int8
mod Tests
unfoldable pub use Accumulators.*
use Prim.Native.Nat.{bit_xor}
use cdsp_peak.Base.{
  ℕ, zero, suc, ◌+◌, Bool, true, false, Option, none, some, List, ◌==◌, if◌then◌else◌,
}
use cdsp_peak.Base.Int.{ℤ, pos, negsuc, not_positive, to_ℕ}
use cdsp_peak.Aee.{AeeCodes, aee_success}
use cdsp_peak.Fnv.{fnv_basis}
use cdsp_peak.Fnv.Indexed.{mix_from}
use cdsp_peak.Dsp.Clock.{elapsed_cycles, measure_timer_overhead}
use cdsp_peak.Dsp.Hvx.{Hvx, words, vector_bytes}

-- The numbers of the kernels.
pub data Kernel : Type 0 where
  fp32 fp16 int8_fixed int8_add_fixed qf16 qf32 : Kernel

-- The cases of `switch (kernel)`; `none` is its `default`.
abbrev pub decode_kernel : ℤ → Option Kernel
decode_kernel (pos zero) = some fp32
decode_kernel (pos (suc zero)) = some fp16
decode_kernel (pos (suc (suc zero))) = some int8_fixed
decode_kernel (pos (suc (suc (suc zero)))) = some int8_add_fixed
decode_kernel (pos (suc (suc (suc (suc zero))))) = some qf16
decode_kernel (pos (suc (suc (suc (suc (suc zero)))))) = some qf32
decode_kernel _ = none

-- `arch` is `CDSP_PEAK_ARCH` of the build.
module _ (codes : AeeCodes) (v : Hvx) (clock : ℕ → ℕ) (arch : ℕ) where
  open v use {Vec}

  -- `g_state`, the first vector of `g_sink`, and the reads of the counter so far.
  pub record State : Type 0 where
    pub timer_overhead : ℕ
    pub sink : Vec
    pub reads : ℕ

  abbrev pub splat_lanes : Lanes ℕ → Lanes Vec
  splat_lanes = map_lanes v.splat

  abbrev pub zero_lanes : Lanes Vec
  zero_lanes = lanes v.vzero v.vzero v.vzero v.vzero v.vzero v.vzero v.vzero v.vzero

  unfoldable pub checksum_vector : Vec → ℕ
  checksum_vector value = mix_from 0 fnv_basis (words v value)

  -- The sum that goes to `g_sink[0]`, and the checksum.
  pub checksum_accumulators : Lanes Vec → Vec × ℕ
  checksum_accumulators a =
      let sum0 = v.vadd_w a.l0 a.l1 in
      let sum1 = v.vadd_w a.l2 a.l3 in
      let sum2 = v.vadd_w a.l4 a.l5 in
      let sum3 = v.vadd_w a.l6 a.l7 in
      let sum4 = v.vadd_w sum0 sum1 in
      let sum5 = v.vadd_w sum2 sum3 in
      let sum = v.vadd_w sum4 sum5 in
      (
        sum,
        bit_xor
            (bit_xor
              (bit_xor (bit_xor (checksum_vector sum) (checksum_vector a.l0))
                (checksum_vector a.l3))
              (checksum_vector a.l5))
            (checksum_vector a.l7),
      )

  -- The frame of every kernel: the loop between two reads of the counter, then the checksum of the
  -- accumulators. The result is the cycles and the checksum.
  pub timed_loop : ℕ → (Lanes Vec → Lanes Vec) → Lanes Vec → State → (ℕ × ℕ) × State
  timed_loop iterations step init s =
      let start = clock s.reads in
      let acc = iterate iterations step init in
      let end = clock (s.reads + 1) in
      let (sum, checksum) = checksum_accumulators acc in
      (
        (elapsed_cycles s.timer_overhead start end, checksum),
        record s { sink = sum; reads = s.reads + 2 },
      )

  abbrev pub fp32_step : Lanes Vec → Lanes Vec
  fp32_step a = zip_lanes (λ x y. v.vadd_sf (v.vmpy_sf x y) y) a (splat_lanes fp32_b)

  abbrev pub fp16_step : Lanes Vec → Lanes Vec
  fp16_step a = zip_lanes (λ x y. v.vmpyacc_hf x x y) a (splat_lanes fp16_b)

  abbrev pub qf16_step : Lanes Vec → Lanes Vec
  qf16_step acc =
      zip_lanes v.vadd_qf16 acc (zip_lanes v.vmpy_qf16 (splat_lanes fp16_a) (splat_lanes qf16_b))

  abbrev pub qf32_step : Lanes Vec → Lanes Vec
  qf32_step acc =
      zip_lanes v.vadd_qf32 acc (zip_lanes v.vmpy_qf32 (splat_lanes fp32_a) (splat_lanes fp32_b))

  -- One lane of `acc = vrmpyacc(acc, a, b)`.
  abbrev pub int8_step : Lanes Vec → Lanes Vec
  int8_step acc =
      zip_lanes (λ f b. f b) (zip_lanes v.vrmpyacc acc (splat_lanes int8_a)) (splat_lanes int8_b)

  abbrev pub int8_add_step : Lanes Vec → Lanes Vec
  int8_add_step acc =
      zip_lanes v.vadd_w acc (zip_lanes v.vrmpy (splat_lanes int8_a) (splat_lanes int8_b))

  pub run_fp32_kernel : ℕ → State → (ℕ × ℕ) × State
  run_fp32_kernel iterations = timed_loop iterations fp32_step (splat_lanes fp32_a)

  pub run_fp16_kernel : ℕ → State → (ℕ × ℕ) × State
  run_fp16_kernel iterations = timed_loop iterations fp16_step (splat_lanes fp16_a)

  pub run_qf16_kernel : ℕ → State → (ℕ × ℕ) × State
  run_qf16_kernel iterations = timed_loop iterations qf16_step zero_lanes

  pub run_qf32_kernel : ℕ → State → (ℕ × ℕ) × State
  run_qf32_kernel iterations = timed_loop iterations qf32_step zero_lanes

  pub run_int8_fixed_kernel : ℕ → State → (ℕ × ℕ) × State
  run_int8_fixed_kernel iterations = timed_loop iterations int8_step zero_lanes

  pub run_int8_add_fixed_kernel : ℕ → State → (ℕ × ℕ) × State
  run_int8_add_fixed_kernel iterations = timed_loop iterations int8_add_step zero_lanes

  pub run_kernel : Kernel → ℕ → State → (ℕ × ℕ) × State
  run_kernel fp32 = run_fp32_kernel
  run_kernel fp16 = run_fp16_kernel
  run_kernel int8_fixed = run_int8_fixed_kernel
  run_kernel int8_add_fixed = run_int8_add_fixed_kernel
  run_kernel qf16 = run_qf16_kernel
  run_kernel qf32 = run_qf32_kernel

  -- `cdsp_peak_open`: the handle is the address of `g_state`, a constant.
  pub open_handle : ℕ → State → ℤ × ℕ × State
  open_handle g_state_address s =
      let (overhead, reads) = measure_timer_overhead clock s.reads in
      (aee_success, g_state_address, record s { timer_overhead = overhead; reads = reads })

  -- `cdsp_peak_close`
  pub close_handle : State → ℤ × State
  close_handle s = (aee_success, s)

  -- `cdsp_peak_get_info`: the architecture, the bytes of a vector, the overhead and the counter.
  unfoldable pub get_info : State → ℤ × (ℕ × ℕ × ℕ × ℕ) × State
  get_info s = (
    aee_success,
    (arch, vector_bytes, s.timer_overhead, clock s.reads),
    record s { reads = s.reads + 1 },
  )

  -- `cdsp_peak_bench_compute`
  pub bench_compute : ℤ → ℤ → State → ℤ × Option (ℕ × ℕ) × State
  bench_compute kernel iterations s =
      if not_positive iterations then (codes.ebadparm, none, s) else elim (decode_kernel kernel) [
        | none ↦ (codes.ebadparm, none, s)
        | some k ↦ let (outs, s') = run_kernel k (to_ℕ iterations) s in (aee_success, some outs, s')
      ]
