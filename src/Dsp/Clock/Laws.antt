-- ===== src/Dsp/Clock/Laws.antt =====
-- What the timer overhead is.
use cdsp_peak.Base.{
  ℕ, zero, suc, ◌+◌, ◌*◌, ◌≤◌, ◌<◌, ◌≡◌, ◌⊎◌, inl, inr, refl, ap, ◌∙◌, arith, sub64, ltb, ◌==◌,
  Bool-cases, if◌then◌else◌,
}
use cdsp_peak.Dsp.Clock.{uint64_max, elapsed_cycles, overhead_loop, measure_timer_overhead}

module _ (clock : ℕ → ℕ) where
  -- The difference that round `i` measures, with `reads` reads made before the loop.
  abbrev pub delta_at : ℕ → ℕ → ℕ
  delta_at reads i = sub64 (clock (reads + 2 * i + 1)) (clock (reads + 2 * i))

  -- The loop makes two reads a round, and ends at the least of its start and the differences.
  pub record IsLeast (n best reads : ℕ) (r : ℕ × ℕ) : Type 0 where
    pub made : r.1 ≡ reads + 2 * n
    pub below_start : r.0 ≤ best
    pub below : (i : ℕ) → i < n → r.0 ≤ delta_at reads i
    pub attained : (r.0 ≡ best) ⊎ ((i : ℕ) × (i < n) × (r.0 ≡ delta_at reads i))

  delta_at-suc : (reads i : ℕ) → delta_at (reads + 1 + 1) i ≡ delta_at reads (suc i)
  delta_at-suc reads i = ap (λ (k : ℕ). sub64 (clock (k + 1)) (clock k)) (omega arith)

  delta_at-zero : (reads : ℕ) → delta_at reads 0 ≡ sub64 (clock (reads + 1)) (clock reads)
  delta_at-zero reads = ap (λ (k : ℕ). sub64 (clock (k + 1)) (clock k)) (omega arith)

  attained_suc :
      (n best best' reads low : ℕ)
      → (best' ≡ best) ⊎ (best' ≡ delta_at reads 0)
      → (low ≡ best') ⊎ ((i : ℕ) × (i < n) × (low ≡ delta_at (reads + 1 + 1) i))
      → (low ≡ best) ⊎ ((i : ℕ) × (i < suc n) × (low ≡ delta_at reads i))
  attained_suc n best best' reads low (inl e) (inl f) = inl (f ∙ e)
  attained_suc n best best' reads low (inr e) (inl f) = inr (0, omega arith, f ∙ e)
  attained_suc n best best' reads low _ (inr (i, h, f)) =
      inr (suc i, omega arith, f ∙ delta_at-suc reads i)

  below_suc :
      (n reads low : ℕ)
      → low ≤ delta_at reads 0
      → ((i : ℕ) → i < n → low ≤ delta_at (reads + 1 + 1) i)
      → (i : ℕ) → i < suc n
      → low ≤ delta_at reads i
  below_suc n reads low first rest zero h = first
  below_suc n reads low first rest (suc i) h = rw (← delta_at-suc reads i) (rest i (omega arith))

  IsLeast-suc :
      (n best best' reads : ℕ) (r : ℕ × ℕ)
      → best' ≤ best
      → best' ≤ delta_at reads 0
      → (best' ≡ best) ⊎ (best' ≡ delta_at reads 0)
      → IsLeast n best' (reads + 1 + 1) r
      → IsLeast (suc n) best reads r
  IsLeast-suc n best best' reads r low first which rest = record {
    made = omega arith;
    below_start = omega arith;
    below = below_suc n reads r.0 (omega arith) rest.below;
    attained = attained_suc n best best' reads r.0 which rest.attained;
  }

  overhead_loop-IsLeast :
      (n best reads : ℕ) → IsLeast n best reads (overhead_loop clock n best reads)
  unfolding overhead_loop
  overhead_loop-IsLeast zero best reads = record {
    made = omega arith;
    below_start = omega arith;
    below = λ i h. absurd (omega arith);
    attained = inl refl;
  }
  overhead_loop-IsLeast (suc n) best reads =
      let delta = sub64 (clock (reads + 1)) (clock reads) in
      let best' = if ltb delta best then delta else best in
      IsLeast-suc n best best' reads _ (ground arith) (ground (arith, delta_at-zero reads))
        (ground (arith, delta_at-zero reads)) (overhead_loop-IsLeast n best' (reads + 1 + 1))

  -- The overhead `o` is the least of the 128 differences.
  abbrev pub IsOverhead : ℕ → ℕ → Type 0
  IsOverhead reads o =
      ((i : ℕ) → i < 128 → o ≤ delta_at reads i)
      × (((i : ℕ) × (i < 128) × (o ≡ delta_at reads i))
          ⊎ ((o ≡ 0) × ((i : ℕ) → i < 128 → delta_at reads i ≡ uint64_max)))

  all_max :
      (reads : ℕ) (r : ℕ × ℕ)
      → IsLeast 128 uint64_max reads r
      → r.0 ≡ uint64_max
      → (i : ℕ) → i < 128
      → delta_at reads i ≡ uint64_max
  all_max reads r m e i h = omega (arith, m.below i h)

  least-IsOverhead :
      (reads : ℕ) (r : ℕ × ℕ)
      → IsLeast 128 uint64_max reads r
      → IsOverhead reads (if r.0 == uint64_max then 0 else r.0)
  least-IsOverhead reads r m = elim (Bool-cases (r.0 == uint64_max)) [
    | inl e ↦ rw e (λ i h. omega arith, inr (refl, all_max reads r m (ground arith)))
    | inr e ↦ rw e (
      λ i h. m.below i h,
      elim m.attained [ inl top ↦ absurd (ground arith) | inr least ↦ inl least ],
    )
  ]

  -- `measure_timer_overhead` reads the counter 256 times. Its result is at most each of the 128
  -- differences between neighbouring reads, and is one of them, unless all are UINT64_MAX: then
  -- it is 0.
  pub measure_timer_overhead_lem :
      (reads : ℕ)
      → let (overhead, reads') = measure_timer_overhead clock reads in
        (reads' ≡ reads + 256) × IsOverhead reads overhead
  unfolding measure_timer_overhead
  measure_timer_overhead_lem reads =
      let m = overhead_loop-IsLeast 128 uint64_max reads in
      (omega (arith, m.made), least-IsOverhead reads _ m)

-- The correction never makes a measurement larger.
pub elapsed_cycles-le :
    (overhead start end : ℕ) → elapsed_cycles overhead start end ≤ sub64 end start
unfolding elapsed_cycles
elapsed_cycles-le overhead start end = ground arith
