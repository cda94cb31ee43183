-- ===== src/Dsp/Clock.antt =====
-- The cycle counter: `read_cycles`, `measure_timer_overhead` and `elapsed_cycles` of
-- dsp/cdsp_peak_imp.c, with their copies in dsp/cdsp_peak_hmx.c. The register is volatile: `clock k`
-- is the value that the k-th read returns, and the state is the number of reads made.
pub mod Laws
mod Tests
use cdsp_peak.Base.{ℕ, zero, suc, ◌+◌, ◌-◌, ◌^◌, Bool, sub64, ltb, ◌==◌, if◌then◌else◌}

abbrev pub uint64_max : ℕ
uint64_max = 2 ^ 64 - 1

unfoldable pub elapsed_cycles : ℕ → ℕ → ℕ → ℕ
elapsed_cycles overhead start end =
    let delta = sub64 end start in if ltb overhead delta then delta - overhead else delta

module _ (clock : ℕ → ℕ) where
  -- `read_cycles`
  abbrev pub read_cycles : ℕ → ℕ × ℕ
  read_cycles reads = (clock reads, reads + 1)

  -- The rounds of the loop that are left.
  pub overhead_loop : ℕ → ℕ → ℕ → ℕ × ℕ
  overhead_loop zero best reads = (best, reads)
  overhead_loop (suc n) best reads =
      let (start, reads₁) = read_cycles reads in
      let (end, reads₂) = read_cycles reads₁ in
      let delta = sub64 end start in overhead_loop n (if ltb delta best then delta else best) reads₂

  pub measure_timer_overhead : ℕ → ℕ × ℕ
  measure_timer_overhead reads =
      let (best, reads') = overhead_loop 128 uint64_max reads in
      (if best == uint64_max then 0 else best, reads')
