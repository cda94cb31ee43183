-- ===== src/Host/Workers.antt =====
-- `measure_rpc_threads`, `measure_compute_threads` and `measure_mem_threads` of host/cdsp_peak.c: one
-- worker per handle, and how their results are put together. What `calloc`, `pthread_create` and the
-- workers answer are parameters; the elapsed time is left out.
pub mod Laws
pub mod Checksum
pub mod Bodies
mod Tests
use cdsp_peak.Base.{
  ℕ, zero, suc, ◌+◌, ◌*◌, ◌/◌, ◌^◌, Bool, true, false, not, ◌&&◌, Option, none, some, List, [], ◌∷◌,
  map, length, ltb, ◌==◌, u64, if◌then◌else◌,
}
use cdsp_peak.Base.Int.{ℤ, nonzero}
use cdsp_peak.Aee.{aee_success}
use cdsp_peak.Fnv.{fnv_basis, fnv_step}

-- What a worker leaves in its argument. `struct rpc_thread_arg` has no cycles: they are 0 there.
pub record Worker : Type 0 where
  pub err : ℤ
  pub cycles : ℕ
  pub checksum : ℕ

-- `struct bench_result` without the time.
pub record BenchResult : Type 0 where
  pub count : ℕ
  pub cycles : ℕ
  pub checksum : ℕ

-- The word that `mix_checksum` mixes in.
abbrev pub mixed_word : ℕ → ℕ → ℕ
mixed_word value index = u64 (value + 0x9e3779b97f4a7c15 + u64 (index * 2 ^ 6) + index / 4)

unfoldable pub mix_checksum : ℕ → ℕ → ℕ → ℕ
mix_checksum acc value index = fnv_step acc (mixed_word value index)

abbrev pub initial_result : ℕ → BenchResult
initial_result count = record { count = count; cycles = 0; checksum = fnv_basis }

-- A worker's share in the result.
abbrev pub joined : ℕ → Worker → BenchResult → BenchResult
joined i w r = record r {
  cycles = if ltb r.cycles w.cycles then w.cycles else r.cycles;
  checksum = mix_checksum r.checksum w.checksum i;
}

-- The loop behind the join, from worker `i` on; it stops at the first error.
unfoldable pub collect : ℕ → List Worker → BenchResult → ℤ × BenchResult
collect i [] r = (aee_success, r)
collect i (w ∷ ws) r =
    let rest = collect (i + 1) ws (joined i w r) in if nonzero w.err then (w.err, r) else rest

-- `enomem` is `-ENOMEM`; `args_there` and `threads_there` tell whether the two `calloc` succeed;
-- `create i` is what `pthread_create` returns for thread `i`.
module _ (enomem : ℤ) (args_there threads_there : Bool) (create : ℕ → ℤ) where
  -- The error of the loop that creates the threads, from thread `i` on; it stops at the first.
  pub create_threads : ℕ → List Worker → ℤ
  create_threads i [] = aee_success
  create_threads i (w ∷ ws) =
      let rest = create_threads (i + 1) ws in if nonzero (create i) then create i else rest

  -- The frame of the three functions, with the calls or iterations of one thread. The result is not
  -- written where memory is short.
  pub measure_threads : ℕ → List Worker → ℤ × Option BenchResult
  measure_threads per_thread workers =
      if not args_there
      then (enomem, none)
      else if ltb 1 (length workers) && not threads_there
      then (enomem, none)
      else let err = if length workers == 1 then aee_success else create_threads 0 workers in
        let start = initial_result (u64 (per_thread * length workers)) in
        if nonzero err
        then (err, some start)
        else let (err', r) = collect 0 workers start in (err', some r)

  -- The three functions, with what the created workers leave. A worker of `measure_rpc_threads` has
  -- an error and a checksum.
  pub measure_rpc_threads : ℕ → List (ℤ × ℕ) → ℤ × Option BenchResult
  measure_rpc_threads calls answers =
      measure_threads calls (map (λ a. record { err = a.0; cycles = 0; checksum = a.1 }) answers)

  pub measure_compute_threads : ℕ → List Worker → ℤ × Option BenchResult
  measure_compute_threads iterations workers = measure_threads iterations workers

  pub measure_mem_threads : ℕ → List Worker → ℤ × Option BenchResult
  measure_mem_threads repeats workers = measure_threads repeats workers
