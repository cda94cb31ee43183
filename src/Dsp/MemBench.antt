-- ===== src/Dsp/MemBench.antt =====
-- The memory benchmarks of dsp/cdsp_peak_imp.c: `checksum_bytes`, `cdsp_peak_bench_mem_read`,
-- `cdsp_peak_bench_mem_write` and `cdsp_peak_bench_mem_copy`. The source and the destination are
-- buffers of their own, as FastRPC passes them, and a length is the length of its buffer.
pub mod Laws
pub mod Calls
pub mod Tests
use cdsp_peak.Base.{
  ℕ, zero, suc, ◌+◌, ◌-◌, ◌*◌, ◌/◌, Bool, true, false, not, ◌||◌, Option, none, some, List, [], ◌∷◌,
  ◌++◌, length, take, drop, get_or, min, u64, ltb, ◌==◌, if◌then◌else◌,
}
use cdsp_peak.Base.Int.{ℤ, not_positive, to_ℕ}
use cdsp_peak.Aee.{AeeCodes, aee_success}
use cdsp_peak.Dsp.Clock.{elapsed_cycles}
use cdsp_peak.Dsp.Hvx.{Hvx, vector_bytes}
use cdsp_peak.Dsp.Kernels.{State, checksum_vector}

-- The rounds of the loop that are left; `i` goes up by 4096.
sample_bytes : ℕ → ℕ → List ℕ → ℕ → ℕ
sample_bytes zero i bytes sum = sum
sample_bytes (suc n) i bytes sum = sample_bytes n (i + 4096) bytes (u64 (sum + get_or bytes i 0))

-- The loop `for (i = 0; i < len; i += 4096)` makes `(len + 4095) / 4096` rounds. Above a length of
-- 0x7ffff000 its `int i` overflows, which is undefined: there is no sum then.
pub checksum_bytes : List ℕ → ℕ → Option ℕ
unfolding sample_bytes
checksum_bytes bytes len =
    if ltb 0x7ffff000 len
    then none
    else if len == 0
    then some 0
    else some (u64 (sample_bytes ((len + 4095) / 4096) 0 bytes 0 + get_or bytes (len - 1) 0))

-- The out values, which are missing where the checksum is undefined.
abbrev pub reported : ℕ → Option ℕ → Option (ℕ × ℕ)
reported cycles none = none
reported cycles (some sum) = some (cycles, sum)

module _ (v : Hvx) where
  open v use {Vec}

  -- One pass over the first `n` vectors of a buffer.
  pub read_pass : ℕ → List ℕ → Vec → Vec
  read_pass zero src acc = acc
  read_pass (suc n) src acc =
      read_pass n (drop vector_bytes src) (v.vadd_w acc (v.load (take vector_bytes src)))

  pub read_passes : ℕ → ℕ → List ℕ → Vec → Vec
  read_passes zero nvec src acc = acc
  read_passes (suc r) nvec src acc = read_passes r nvec src (read_pass nvec src acc)

  pub write_pass : ℕ → Vec → List ℕ → List ℕ
  write_pass zero value dst = dst
  write_pass (suc n) value dst = v.store value ++ write_pass n value (drop vector_bytes dst)

  pub write_passes : ℕ → ℕ → Vec → Vec → List ℕ → List ℕ
  write_passes zero nvec step value dst = dst
  write_passes (suc r) nvec step value dst =
      write_passes r nvec step (v.vadd_w value step) (write_pass nvec value dst)

  -- One pass of the copy: the new destination and the accumulator.
  pub copy_pass : ℕ → List ℕ → List ℕ → Vec → List ℕ × Vec
  copy_pass zero src dst acc = (dst, acc)
  copy_pass (suc n) src dst acc =
      let value = v.load (take vector_bytes src) in
      let (rest, acc') =
        copy_pass n (drop vector_bytes src) (drop vector_bytes dst) (v.vadd_w acc value) in
      (v.store value ++ rest, acc')

  pub copy_passes : ℕ → ℕ → List ℕ → List ℕ → Vec → List ℕ × Vec
  copy_passes zero nvec src dst acc = (dst, acc)
  copy_passes (suc r) nvec src dst acc =
      let (dst', acc') = copy_pass nvec src dst acc in copy_passes r nvec src dst' acc'

module _ (codes : AeeCodes) (v : Hvx) (clock : ℕ → ℕ) (arch : ℕ) where
  -- Two reads of the counter with the loop between them.
  abbrev timed : State codes v clock arch → ℕ × State codes v clock arch
  timed s = (
    elapsed_cycles s.timer_overhead (clock s.reads) (clock (s.reads + 1)),
    record s { reads = s.reads + 2 },
  )

  abbrev sunk : v.Vec → State codes v clock arch → State codes v clock arch
  sunk acc s = record s { sink = acc }

  -- `cdsp_peak_bench_mem_read`. `given` tells whether the buffers are there.
  pub bench_mem_read :
      Bool → List ℕ → ℤ → State codes v clock arch → ℤ × Option (ℕ × ℕ) × State codes v clock arch
  bench_mem_read given src repeats s =
      let nvec = length src / vector_bytes in
      if not given || (length src == 0) || not_positive repeats || (nvec == 0)
      then (codes.ebadparm, none, s)
      else (let (cycles, s') = timed s in
          let acc = read_passes v (to_ℕ repeats) nvec src v.vzero in
          (aee_success, some (cycles, checksum_vector codes v clock arch acc), sunk acc s'))

  -- `cdsp_peak_bench_mem_write`. The destination comes back with the results.
  pub bench_mem_write :
      Bool
      → List ℕ
      → ℤ
      → State codes v clock arch
      → ℤ × List ℕ × Option (ℕ × ℕ) × State codes v clock arch
  bench_mem_write given dst repeats s =
      let nvec = length dst / vector_bytes in
      if not given || (length dst == 0) || not_positive repeats || (nvec == 0)
      then (codes.ebadparm, dst, none, s)
      else (let (cycles, s') = timed s in
          let dst' =
            write_passes v (to_ℕ repeats) nvec (v.splat 0x01010101) (v.splat 0x5a5a5a5a) dst in
          (aee_success, dst', reported cycles (checksum_bytes dst' (length dst)), s'))

  -- `cdsp_peak_bench_mem_copy`
  pub bench_mem_copy :
      Bool
      → List ℕ
      → List ℕ
      → ℤ
      → State codes v clock arch
      → ℤ × List ℕ × Option (ℕ × ℕ) × State codes v clock arch
  bench_mem_copy given src dst repeats s =
      if not given || (length src == 0) || (length dst == 0) || not_positive repeats
      then (codes.ebadparm, dst, none, s)
      else (let nvec =
            (if ltb (length src) (length dst) then length src else length dst) / vector_bytes in
          if nvec == 0
          then (codes.ebadparm, dst, none, s)
          else let (cycles, s') = timed s in
            let (dst', acc) = copy_passes v (to_ℕ repeats) nvec src dst v.vzero in
            let sum =
              mathlib.Core.Option.map
                (λ bytes. u64 (checksum_vector codes v clock arch acc + bytes))
                (checksum_bytes dst' (nvec * vector_bytes)) in
            (aee_success, dst', reported cycles sum, sunk acc s'))
