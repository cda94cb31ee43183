-- ===== src/Dsp/Kernels/Laws.antt =====
-- `cdsp_peak_bench_compute` on every branch, and what the vector checksum tells apart.
use cdsp_peak.Base.{
  ℕ, ◌+◌, ◌^◌, ◌≤◌, ◌<◌, ◌≡◌, ◌≢◌, ◌⊎◌, inl, inr, refl, arith, true, false, none, some, List, ◌∷◌,
  ◌++◌, sub64, Bool-cases, Option-cases,
}
use cdsp_peak.Base.Int.{ℤ, not_positive, to_ℕ}
use cdsp_peak.Aee.{AeeCodes, aee_success}
use cdsp_peak.Fnv.{fnv_basis}
use cdsp_peak.Fnv.Indexed.{mix_from_detects}
use cdsp_peak.Dsp.Clock.Laws.{elapsed_cycles-le}
use cdsp_peak.Dsp.Hvx.{Hvx, words}
use cdsp_peak.Dsp.Kernels.{
  Kernel, fp32, State, decode_kernel, checksum_vector, timed_loop, run_kernel, run_fp32_kernel,
  run_fp16_kernel, run_qf16_kernel, run_qf32_kernel, run_int8_fixed_kernel,
  run_int8_add_fixed_kernel, bench_compute,
}

-- Vectors that differ in exactly one of their words have different checksums.
pub checksum_vector_detects :
    (codes : AeeCodes) (v : Hvx) (clock : ℕ → ℕ) (arch : ℕ) (a b : v.Vec) (pre : List ℕ) (x y : ℕ)
    (rest : List ℕ)
    → words v a ≡ pre ++ (x ∷ rest)
    → words v b ≡ pre ++ (y ∷ rest)
    → x < 2 ^ 32
    → y < 2 ^ 32
    → x ≢ y
    → checksum_vector codes v clock arch a ≢ checksum_vector codes v clock arch b
unfolding checksum_vector
checksum_vector_detects codes v clock arch a b pre x y rest ea eb hx hy ne =
    rw (ea, eb) (mix_from_detects 0 fnv_basis pre x y rest (omega arith) hx hy ne)

module _ (codes : AeeCodes) (v : Hvx) (clock : ℕ → ℕ) (arch : ℕ) where
  -- A kernel reads the counter twice, keeps the overhead, and reports no more cycles than the
  -- difference of its two reads.
  abbrev pub Measures : State codes v clock arch → ℕ × ℕ → State codes v clock arch → Type 0
  Measures s outs s' =
      (s'.reads ≡ s.reads + 2)
      × (s'.timer_overhead ≡ s.timer_overhead)
      × (outs.0 ≤ sub64 (clock (s.reads + 1)) (clock s.reads))

  run_kernel-Measures :
      (k : Kernel) (n : ℕ) (s : State codes v clock arch)
      → let (outs, s') = run_kernel codes v clock arch k n s in Measures s outs s'
  unfolding run_kernel run_fp32_kernel run_fp16_kernel run_qf16_kernel run_qf32_kernel
      run_int8_fixed_kernel run_int8_add_fixed_kernel timed_loop
  run_kernel-Measures fp32 n s = (refl, refl, elapsed_cycles-le _ _ _)
  run_kernel-Measures k n s = (refl, refl, elapsed_cycles-le _ _ _)

  -- A call with a number of iterations that is not positive or with an unknown kernel is refused as
  -- a bad parameter, reports nothing and changes nothing; any other call succeeds, reads the counter
  -- twice, keeps the overhead, and reports no more cycles than the counter advanced.
  pub bench_compute_lem :
      (kernel iterations : ℤ) (s : State codes v clock arch)
      → let (ret, outs, s') = bench_compute codes v clock arch kernel iterations s in
        (((not_positive iterations ≡ true) ⊎ (decode_kernel kernel ≡ none))
          × (ret ≡ codes.ebadparm)
          × (outs ≡ none)
          × (s' ≡ s))
        ⊎ ((not_positive iterations ≡ false)
            × (decode_kernel kernel ≢ none)
            × (ret ≡ aee_success)
            × ((o : ℕ × ℕ) × (outs ≡ some o) × Measures s o s'))
  unfolding bench_compute
  bench_compute_lem kernel iterations s = elim (Bool-cases (not_positive iterations)) [
    | inl e ↦ rw e (inl (inl refl, refl, refl, refl))
    | inr e ↦ elim (Option-cases (decode_kernel kernel)) [
      | inl f ↦ rw (e, f) (inl (inr refl, refl, refl, refl))
      | inr (k, f) ↦
          rw (e, f)
            (inr (refl, (λ g. cc), refl, (_, refl, run_kernel-Measures k (to_ℕ iterations) s)))
    ]
  ]
