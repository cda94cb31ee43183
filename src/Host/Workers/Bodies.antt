-- ===== src/Host/Workers/Bodies.antt =====
-- The bodies of the threads of host/cdsp_peak.c: `rpc_thread_main`, `compute_thread_main` and
-- `mem_thread_main`, over the session with the DSP that the thread's handle stands for.
pub mod Laws
mod Tests
use Prim.Native.Nat.{bit_xor}
use cdsp_peak.Base.{
  ℕ, zero, suc, Bool, true, false, not, ◌&&◌, Option, none, some, List, length, ◌==◌, if◌then◌else◌,
}
use cdsp_peak.Base.Int.{ℤ, pos, nonzero}
use cdsp_peak.Aee.{AeeCodes, aee_success}
use cdsp_peak.Host.Buffers.{verify_copy}
use cdsp_peak.Host.Scenarios.{ComputeScenario, MemScenario}
use cdsp_peak.Host.Workers.{Worker}

-- The calls of a session with state `S`, as FastRPC passes them on. Out values are missing where the
-- call did not write them.
pub record Session {ℓ} (S : Type ℓ) : Type ℓ where
  -- The architecture, the bytes of a vector, the overhead of the timer and the cycles
  pub get_info : S → ℤ × (ℕ × ℕ × ℕ × ℕ) × S
  pub bench_compute : ℤ → ℤ → S → ℤ × Option (ℕ × ℕ) × S
  pub bench_mem_read : List ℕ → ℤ → S → ℤ × Option (ℕ × ℕ) × S
  pub bench_mem_write : List ℕ → ℤ → S → ℤ × List ℕ × Option (ℕ × ℕ) × S
  pub bench_mem_copy : List ℕ → List ℕ → ℤ → S → ℤ × List ℕ × Option (ℕ × ℕ) × S

-- The argument of a thread comes from `calloc`: what is not written is 0.
abbrev pub left_in : ℤ → Option (ℕ × ℕ) → Worker
left_in err none = record { err = err; cycles = 0; checksum = 0 }
left_in err (some (cycles, checksum)) = record { err = err; cycles = cycles; checksum = checksum }

module _ {ℓ} {S : Type ℓ} (remote : Session S) where
  -- The calls that are left, with the bytes, the overhead and the cycles of the last one: the error,
  -- these three, and the state.
  unfoldable pub rpc_calls : ℕ → ℕ × ℕ × ℕ → S → ℤ × (ℕ × ℕ × ℕ) × S
  rpc_calls zero last s = (aee_success, last, s)
  rpc_calls (suc calls) last s =
      let (err, (arch, hvx_bytes, overhead, cycles), s') = remote.get_info s in
      let rest = rpc_calls calls (hvx_bytes, overhead, cycles) s' in
      if nonzero err then (err, (hvx_bytes, overhead, cycles), s') else rest

  -- The error and the checksum.
  unfoldable pub rpc_thread_main : ℕ → S → (ℤ × ℕ) × S
  rpc_thread_main calls s =
      let (err, (hvx_bytes, overhead, cycles), s') = rpc_calls calls (0, 0, 0) s in
      if nonzero err
      then ((err, 0), s')
      else ((err, bit_xor (bit_xor cycles overhead) hvx_bytes), s')

  unfoldable pub compute_thread_main : ComputeScenario → ℤ → S → Worker × S
  compute_thread_main scenario iterations s =
      let (err, outs, s') = remote.bench_compute (pos scenario.kernel) iterations s in
      (left_in err outs, s')

  -- `efailed` is `AEE_EFAILED`. The destination comes back with the result.
  unfoldable pub mem_thread_main : ℤ → MemScenario → List ℕ → List ℕ → ℤ → S → Worker × List ℕ × S
  mem_thread_main efailed scenario src dst repeats s =
      let (read_err, read_outs, read_s) = remote.bench_mem_read src repeats s in
      let (write_err, write_dst, write_outs, write_s) = remote.bench_mem_write dst repeats s in
      let (copy_err, copy_dst, copy_outs, copy_s) = remote.bench_mem_copy src dst repeats s in
      let differs = not (nonzero copy_err) && not (verify_copy src copy_dst (length src)) in
      if scenario.kind == 0
      then (left_in read_err read_outs, dst, read_s)
      else if scenario.kind == 1
      then (left_in write_err write_outs, write_dst, write_s)
      else (left_in (if differs then efailed else copy_err) copy_outs, copy_dst, copy_s)
