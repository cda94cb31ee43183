-- ===== src/Dsp/MemBench/Calls.antt =====
-- The calls of the memory benchmarks that succeed: what the copy and the write leave behind.
use cdsp_peak.Base.{
  ℕ, suc, ◌+◌, ◌*◌, ◌/◌, ◌≤◌, ◌≡◌, ◌==◌, Bool-cases, refl, inl, inr, ap, ◌∙◌, arith, true, false,
  some, List, ◌++◌, length, take, drop, ltb, if◌then◌else◌,
}
use cdsp_peak.Base.Int.{pos}
use cdsp_peak.Aee.{AeeCodes, aee_success}
use cdsp_peak.Dsp.Clock.{elapsed_cycles}
use cdsp_peak.Dsp.Hvx.{Hvx, KeepsBytes}
use cdsp_peak.Dsp.Kernels.{State, iterate}
use cdsp_peak.Dsp.MemBench.{
  reported, bench_mem_write, bench_mem_copy, copy_passes, read_passes, write_passes, checksum_bytes,
}
use cdsp_peak.Dsp.MemBench.Laws.{copy_passes-take, copy_passes-read, write_passes-filled, filled}

checksum_bytes-some :
    (bytes : List ℕ) (len : ℕ)
    → len ≤ 0x7ffff000
    → (sum : ℕ) × (checksum_bytes bytes len ≡ some sum)
unfolding checksum_bytes
checksum_bytes-some bytes len h =
    let small : ltb 0x7ffff000 len ≡ false = ground arith in
    elim (Bool-cases (len == 0)) [
      | inl e ↦ rw (small, e) (_, refl)
      | inr e ↦ rw (small, e) (_, refl)
    ]

module _ (codes : AeeCodes) (v : Hvx) (clock : ℕ → ℕ) (arch : ℕ) where
  -- The vectors that a copy moves.
  abbrev pub copied_vectors : List ℕ → List ℕ → ℕ
  copied_vectors src dst = (if ltb (length src) (length dst) then length src else length dst) / 128

  copy_long :
      (src dst : List ℕ) (r : ℕ) (s : State codes v clock arch)
      → 128 ≤ length src
      → 128 ≤ length dst
      → let n = copied_vectors src dst in
        let (ret, dst', outs, s') =
          bench_mem_copy codes v clock arch true src dst (pos (suc r)) s in
        (ret ≡ aee_success)
        × (dst' ≡ (copy_passes v (suc r) n src dst v.vzero).0)
        × (s'.sink ≡ (copy_passes v (suc r) n src dst v.vzero).1)
  unfolding bench_mem_copy
  copy_long src dst r s hs hd = ground arith

  copied_vectors-le :
      (src dst : List ℕ)
      → (copied_vectors src dst * 128 ≤ length src) × (copied_vectors src dst * 128 ≤ length dst)
  copied_vectors-le src dst = ground arith

  pub bench_mem_copy-take :
      (keeps : KeepsBytes v) (src dst : List ℕ) (r : ℕ) (s : State codes v clock arch)
      → 128 ≤ length src
      → 128 ≤ length dst
      → let n = copied_vectors src dst in
        let (ret, dst', outs, s') =
          bench_mem_copy codes v clock arch true src dst (pos (suc r)) s in
        (ret ≡ aee_success)
        × (dst' ≡ take (n * 128) src ++ drop (n * 128) dst)
        × (s'.sink ≡ read_passes v (suc r) n src v.vzero)
  bench_mem_copy-take keeps src dst r s hs hd =
      let (ok, filled, sunk) = copy_long src dst r s hs hd in
      let (ns, nd) = copied_vectors-le src dst in
      let n = copied_vectors src dst in
      (
        ok,
        filled ∙ copy_passes-take v keeps r n src dst v.vzero ns nd,
        sunk ∙ copy_passes-read v keeps (suc r) n src dst v.vzero,
      )

  write_long :
      (dst : List ℕ) (r : ℕ) (s : State codes v clock arch)
      → 128 ≤ length dst
      → let (ret, dst', outs, s') = bench_mem_write codes v clock arch true dst (pos (suc r)) s in
        let left =
          write_passes v (suc r) (length dst / 128) (v.splat 0x01010101) (v.splat 0x5a5a5a5a) dst in
        (ret ≡ aee_success)
        × (dst' ≡ left)
        × ((cycles : ℕ) × (outs ≡ reported cycles (checksum_bytes left (length dst))))
  unfolding bench_mem_write
  write_long dst r s hd = (
    ground arith,
    ground arith,
    (elapsed_cycles s.timer_overhead (clock s.reads) (clock (s.reads + 1)), ground arith),
  )

  -- With a vector unit that keeps bytes, a write into a buffer of a vector or more, up to the
  -- 0x7ffff000 bytes that an `int` counter can sample, with a positive number of repeats succeeds;
  -- each whole vector of the buffer then holds the first value advanced by the step once for each
  -- repeat but the last, the bytes behind them are kept, and the checksum is that of the buffer as it
  -- is left.
  pub bench_mem_write-filled :
      (keeps : KeepsBytes v) (dst : List ℕ) (r : ℕ) (s : State codes v clock arch)
      → 128 ≤ length dst
      → length dst ≤ 0x7ffff000
      → let n = length dst / 128 in
        let (ret, dst', outs, s') = bench_mem_write codes v clock arch true dst (pos (suc r)) s in
        let last = iterate r (λ x. v.vadd_w x (v.splat 0x01010101)) (v.splat 0x5a5a5a5a) in
        (ret ≡ aee_success)
        × (dst' ≡ filled v keeps n last ++ drop (n * 128) dst)
        × ((cycles : ℕ) × (sum : ℕ) × (checksum_bytes dst' (length dst) ≡ some sum)
            × (outs ≡ some (cycles, sum)))
  bench_mem_write-filled keeps dst r s hd hi =
      let (ok, left, (cycles, outs)) = write_long dst r s hd in
      let (sum, sampled) = checksum_bytes-some _ (length dst) hi in
      let n = length dst / 128 in
      let e = write_passes-filled v keeps r n (v.splat 0x01010101) (v.splat 0x5a5a5a5a) dst in
      (
        ok,
        left ∙ e,
        (
          cycles,
          sum,
          ap (λ t. checksum_bytes t (length dst)) left ∙ sampled,
          outs ∙ ap (reported cycles) sampled,
        ),
      )
