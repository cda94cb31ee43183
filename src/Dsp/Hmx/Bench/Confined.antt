-- ===== src/Dsp/Hmx/Bench/Confined.antt =====
-- `cdsp_peak_bench_hmx_int8` as a whole writes only to VTCM.
use cdsp_peak.Base.{
  ℕ, ◌+◌, ◌^◌, ◌≤◌, ◌≡◌, inl, inr, arith, Bool, false, not, ◌||◌, none, List, length, u32, ltb,
  Bool-cases, Option-cases, if◌then◌else◌,
}
use cdsp_peak.Base.Int.{ℤ, nonzero, to_ℕ, not_positive}
use cdsp_peak.Aee.{AeeCodes}
use cdsp_peak.Dsp.Hmx.Resource.{Acquired}
use cdsp_peak.Dsp.Hmx.Resource.Block.{GivesWithin, InBlock, hmx_resource_acquire-Placed}
use cdsp_peak.Dsp.Hmx.Memory.{SameOutside}
use cdsp_peak.Dsp.Hmx.Modes.{HmxMode, mode_config, decode_mode}
use cdsp_peak.Dsp.Hmx.Bench.{
  Device, Sys, reply, required_vtcm, bench_acquired, bench_mode, bench_hmx_int8,
}
use cdsp_peak.Dsp.Hmx.Bench.Regions.{StoresOnly, bench_acquired-SameOutside}

module _ (base size : ℕ) (codes : AeeCodes) (d : Device) (stores : StoresOnly d)
    (gives : GivesWithin base size d.api) (low : base + size + 2 ^ 17 ≤ 2 ^ 32) where
  after_acquire :
      (m : HmxMode) (repeats : ℕ) (activation weight output : List ℕ) (s : Sys codes d)
      (r : Acquired)
      → (nonzero r.0 ≡ false → InBlock base size r.1)
      → let s₁ = record s { trace = r.2 } in
        SameOutside base size s.memory
          (if nonzero r.0
            then reply codes d r.0 output none s₁
            else bench_acquired codes d m r.1 repeats activation weight output s₁).sys.memory
  after_acquire m repeats activation weight output s r placed p out =
      elim (Bool-cases (nonzero r.0)) [
        | inl bad ↦ rw bad
        | inr good ↦
            let block = placed good in
            rw good (
              bench_acquired-SameOutside codes d stores m r.1 repeats activation weight output
                (record s { trace = r.2 }) (omega arith) p (omega arith))
      ]

  bench_mode-SameOutside :
      (m : HmxMode) (repeats : ℕ) (activation weight output : List ℕ) (s : Sys codes d)
      → SameOutside base size s.memory
          (bench_mode codes d m repeats activation weight output s).sys.memory
  unfolding bench_mode
  bench_mode-SameOutside m repeats activation weight output s p out =
      let c = mode_config m in
      let short =
        ltb (length activation) c.activation_vtcm_len || ltb (length weight) c.weight_vtcm_len in
      elim (Bool-cases short) [
        | inl e ↦ rw e
        | inr e ↦ rw e (elim (Bool-cases (ltb (length output) c.written_len)) [
          | inl f ↦ rw f
          | inr f ↦ rw f (
              after_acquire m repeats activation weight output s _
                (hmx_resource_acquire-Placed base size codes d.api gives (u32 (required_vtcm c))
                  c.use_cached c.use_lock s.trace)
                p out)
        ])
      ]

  -- If the manager hands out VTCM only from the `size` bytes at `base`, which end 128 KiB or more
  -- before the end of the address space, then a call with any arguments leaves every byte of the DSP's
  -- memory outside that block as it was.
  pub bench_hmx_int8-SameOutside :
      (given : Bool) (mode repeats : ℤ) (activation weight output : List ℕ) (s : Sys codes d)
      → SameOutside base size s.memory
          (bench_hmx_int8 codes d given mode repeats activation weight output s).sys.memory
  unfolding bench_hmx_int8
  bench_hmx_int8-SameOutside given mode repeats activation weight output s p out =
      elim (Bool-cases (not given || not_positive repeats)) [
        | inl e ↦ rw e
        | inr e ↦ rw e (elim (Option-cases (decode_mode mode)) [
          | inl f ↦ rw f
          | inr (m, f) ↦
              rw f (bench_mode-SameOutside m (to_ℕ repeats) activation weight output s p out)
        ])
      ]
