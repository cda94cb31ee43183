-- ===== src/Host/Workers/Bodies/Laws.antt =====
-- The bodies of the threads over the handlers of the DSP.
use Prim.Native.Nat.{bit_xor}
use mathlib.Core.Path.{subst}
use cdsp_peak.Base.{
  ℕ, zero, suc, ◌+◌, ◌*◌, ◌/◌, ◌%◌, ◌<◌, ◌≢◌, get_or, ◌≤◌, ◌≡◌, ◌∙◌, refl, sym, ap, ap₂, arith,
  Bool, true, false, not, ◌&&◌, Option, none, some, List, [], ◌∷◌, ◌++◌, length, take, drop, ◌==◌,
  if◌then◌else◌,
}
use cdsp_peak.Base.Int.{ℤ, pos, nonzero}
use cdsp_peak.Aee.{AeeCodes, aee_success}
use cdsp_peak.Dsp.Hvx.{Hvx, KeepsBytes}
use cdsp_peak.Dsp.Kernels.{State}
use cdsp_peak.Dsp.MemBench.Calls.{copied_vectors, bench_mem_copy-take}
use cdsp_peak.Host.Buffers.{verify_copy}
use cdsp_peak.Host.Buffers.Laws.{verify_copy_iff, verify_copy_detects}
use cdsp_peak.Host.Scenarios.{MemScenario}
use cdsp_peak.Host.Workers.Bodies.{Session, left_in, rpc_calls, rpc_thread_main, mem_thread_main}

whole {ℓ} :
    {A : Type ℓ} (n : ℕ) (src dst : List A)
    → n ≡ length src
    → length dst ≡ n
    → take n src ++ drop n dst ≡ src
whole zero [] [] e f = refl
whole zero [] (y ∷ dst) e f = absurd (omega arith)
whole zero (x ∷ src) dst e f = absurd (omega arith)
whole (suc n) [] dst e f = absurd (omega arith)
whole (suc n) (x ∷ src) [] e f = absurd (omega arith)
whole (suc n) (x ∷ src) (y ∷ dst) e f =
    ap (λ xs. x ∷ xs) (whole n src dst (omega arith) (omega arith))

left_in-err : (err : ℤ) (outs : Option (ℕ × ℕ)) → (left_in err outs).err ≡ err
left_in-err err none = refl
left_in-err err (some outs) = refl

no_difference : (b : Bool) (x y : ℤ) → (if b && not true then x else y) ≡ y
no_difference true x y = refl
no_difference false x y = refl

-- A thread of the scenario that copies, over any session, with a source of whole blocks of 4096
-- bytes, one or more: where the call reports success but leaves a destination that differs from the
-- source at every index with the remainder `r` modulo 4096, for some `r`, the thread reports
-- `AEE_EFAILED`.
pub mem_thread_main_detects {ℓ} :
    {S : Type ℓ} (remote : Session S) (efailed : ℤ) (scenario : MemScenario) (src dst : List ℕ)
    (repeats : ℤ) (s : S) (k r : ℕ)
    → scenario.kind ≡ 2
    → 1 ≤ k
    → length src ≡ k * 4096
    → r < 4096
    → (remote.bench_mem_copy src dst repeats s).0 ≡ aee_success
    → ((j : ℕ)
        → j < k * 4096
        → j % 4096 ≡ r
        → get_or src j 0 ≢ get_or (remote.bench_mem_copy src dst repeats s).1 j 0)
    → (mem_thread_main remote efailed scenario src dst repeats s).0.err ≡ efailed
unfolding mem_thread_main
mem_thread_main_detects remote efailed scenario src dst repeats s k r kind some_block whole_blocks
      low ok differ =
    let answer = remote.bench_mem_copy src dst repeats s in
    let k₀ : (scenario.kind == 0) ≡ false = ground arith in
    let k₁ : (scenario.kind == 1) ≡ false = ground arith in
    let good : nonzero answer.0 ≡ false = ap nonzero ok in
    let wrong : verify_copy src answer.1 (length src) ≡ false =
      subst (λ n. verify_copy src answer.1 n ≡ false) (sym whole_blocks)
        (verify_copy_detects src answer.1 k r some_block low differ) in
    rw (mem_thread_main, k₀, k₁, good, wrong) (left_in-err efailed answer.2)

module _ (codes : AeeCodes) (v : Hvx) (clock : ℕ → ℕ) (arch : ℕ) where
  -- The DSP's handlers behind FastRPC, which passes buffers that are there.
  abbrev pub dsp_session : Session (State codes v clock arch)
  dsp_session = record {
    get_info = cdsp_peak.Dsp.Kernels.get_info codes v clock arch;
    bench_compute = cdsp_peak.Dsp.Kernels.bench_compute codes v clock arch;
    bench_mem_read = cdsp_peak.Dsp.MemBench.bench_mem_read codes v clock arch true;
    bench_mem_write = cdsp_peak.Dsp.MemBench.bench_mem_write codes v clock arch true;
    bench_mem_copy = cdsp_peak.Dsp.MemBench.bench_mem_copy codes v clock arch true;
  }

  same_buffer : (src : List ℕ) (n : ℕ) → verify_copy src src n ≡ true
  same_buffer src n = (verify_copy_iff src src n).1 (λ i h. refl)

  -- What a copying thread leaves, from the answer of the call
  mem_copy_lem :
      (scenario : MemScenario) (src dst : List ℕ) (repeats : ℤ) (s : State codes v clock arch)
      → scenario.kind ≡ 2
      → let (err, dst', outs, s') =
          cdsp_peak.Dsp.MemBench.bench_mem_copy codes v clock arch true src dst repeats s in
        err ≡ aee_success
        → dst' ≡ src
        → let (w, dst'', s'') =
            mem_thread_main dsp_session codes.efailed scenario src dst repeats s in
          (w.err ≡ aee_success) × (dst'' ≡ src)
  unfolding mem_thread_main
  mem_copy_lem scenario src dst repeats s kind ok copied =
      let r = cdsp_peak.Dsp.MemBench.bench_mem_copy codes v clock arch true src dst repeats s in
      let k₀ : (scenario.kind == 0) ≡ false = ground arith in
      let k₁ : (scenario.kind == 1) ≡ false = ground arith in
      let same : verify_copy src r.1 (length src) ≡ true =
        subst (λ xs. verify_copy src xs (length src) ≡ true) (sym copied)
          (same_buffer src (length src)) in
      rw (mem_thread_main, k₀, k₁, same)
        (left_in-err _ r.2 ∙ no_difference (not (nonzero r.0)) codes.efailed r.0 ∙ ok, copied)

  -- A thread of the scenario that copies, over the DSP's handler and a vector unit that keeps bytes,
  -- with a source of whole vectors, one or more and up to 0x7ffff000 bytes, a destination as long,
  -- and a positive number of repeats: it reports success, and the destination is the source.
  pub mem_thread_main-copies :
      (keeps : KeepsBytes v) (scenario : MemScenario) (src dst : List ℕ) (r : ℕ)
      (s : State codes v clock arch)
      → scenario.kind ≡ 2
      → 128 ≤ length src
      → length src ≤ 0x7ffff000
      → length src / 128 * 128 ≡ length src
      → length dst ≡ length src
      → let (w, dst', s') =
          mem_thread_main dsp_session codes.efailed scenario src dst (pos (suc r)) s in
        (w.err ≡ aee_success) × (dst' ≡ src)
  mem_thread_main-copies keeps scenario src dst r s kind long int vectors same =
      let (ok, copied, sunk) =
        bench_mem_copy-take codes v clock arch keeps src dst r s long (omega arith) in
      let all : copied_vectors codes v clock arch src dst * 128 ≡ length src = ground arith in
      mem_copy_lem scenario src dst (pos (suc r)) s kind ok
        (copied ∙ whole _ src dst all (same ∙ sym all))

  -- What the calls of such a thread leave: the last answer, and the reads of the counter.
  rpc_calls_lem :
      (calls : ℕ) (last : ℕ × ℕ × ℕ) (s : State codes v clock arch)
      → let (err, (hvx_bytes, overhead, cycles), s') = rpc_calls dsp_session (suc calls) last s in
        (err ≡ aee_success)
        × (hvx_bytes ≡ 128)
        × (overhead ≡ s.timer_overhead)
        × (cycles ≡ clock (s.reads + calls))
        × (s'.reads ≡ s.reads + suc calls)
  unfolding rpc_calls cdsp_peak.Dsp.Kernels.get_info
  rpc_calls_lem zero last s = (refl, refl, refl, ap clock (omega arith), omega arith)
  rpc_calls_lem (suc calls) last s =
      let next : State codes v clock arch = record s { reads = s.reads + 1 } in
      let (ok, bytes, overhead, cycles, reads) =
        rpc_calls_lem calls (128, s.timer_overhead, clock s.reads) next in
      (ok, bytes, overhead, cycles ∙ ap clock (omega arith), omega (arith, reads))

  -- A thread that measures FastRPC itself with one call of `get_info` or more, over the DSP's
  -- handler: it reports success and the checksum of the last call's cycles, the overhead that `open`
  -- measured and the 128 bytes of a vector; the counter was read once for each call.
  pub rpc_thread_main_lem :
      (calls : ℕ) (s : State codes v clock arch)
      → let ((err, checksum), s') = rpc_thread_main dsp_session (suc calls) s in
        (err ≡ aee_success)
        × (checksum ≡ bit_xor (bit_xor (clock (s.reads + calls)) s.timer_overhead) 128)
        × (s'.reads ≡ s.reads + suc calls)
  unfolding rpc_thread_main
  rpc_thread_main_lem calls s =
      let r = rpc_calls dsp_session (suc calls) (0, 0, 0) s in
      let (ok, bytes, overhead, cycles, reads) = rpc_calls_lem calls (0, 0, 0) s in
      let good : nonzero r.0 ≡ false = ap nonzero ok in
      rw (rpc_thread_main, good) (ok, ap₂ bit_xor (ap₂ bit_xor cycles overhead) bytes, reads)
