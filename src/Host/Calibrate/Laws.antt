-- ===== src/Host/Calibrate/Laws.antt =====
-- The calibration loops end, and no count that they measure leaves the range of `int`.
use cdsp_peak.Base.{
  ℕ, zero, suc, ◌*◌, ◌^◌, ◌≤◌, ◌<◌, ◌≡◌, ◌≢◌, ◌⊎◌, inl, inr, refl, arith, Bool, true, false, not,
  ◌||◌, Option, some, List, [], ◌∷◌, All, if◌then◌else◌, Bool-cases,
}
use cdsp_peak.Base.Int.{ℤ, pos, negsuc, nonzero, not_positive, to_ℕ}
use cdsp_peak.Aee.{aee_success}
use cdsp_peak.Host.Options.{Options}
use cdsp_peak.Host.Scenarios.{ComputeScenario, HmxScenario}
use cdsp_peak.Host.Calibrate.{Measure, calibrate, run_rpc_null, run_compute, run_hmx_int8, run_mem}

le_or_lt : (a n : ℕ) → (a ≤ n) ⊎ (n < a)
le_or_lt a n = omega arith

or_last : (a b c : Bool) → (a || b || c) ≡ false → c ≡ false
or_last a b c e = ground arith

true-ne_false : (b : Bool) → b ≡ true → b ≢ false
true-ne_false b e f = cc

below_limit :
    (at_limit : ℕ → Bool) (n : ℕ)
    → ((k : ℕ) → 2 ^ 30 ≤ k → at_limit k ≡ true)
    → at_limit n ≡ false
    → n < 2 ^ 30
below_limit at_limit n limit below = elim (le_or_lt (2 ^ 30) n) [
  | inl h ↦ absurd (true-ne_false (at_limit n) (limit n h) below)
  | inr h ↦ h
]

start_bounds :
    (iterations : ℤ) (start : ℕ)
    → to_ℕ iterations < 2 ^ 31
    → (1 ≤ start) × (start < 2 ^ 31)
    → let n = if not (not_positive iterations) then to_ℕ iterations else start in
      (1 ≤ n) × (n < 2 ^ 31)
start_bounds (pos zero) start int bounds = bounds
start_bounds (pos (suc n)) start int bounds = ground arith
start_bounds (negsuc n) start int bounds = bounds

-- A count doubled `k` times.
abbrev doubled : ℕ → ℕ → ℕ
doubled zero n = n
doubled (suc k) n = doubled k (n * 2)

module _ {ℓ} (S : Type ℓ) (measure : Measure S) (first : S) where
  -- The counts, the last one first, were measured one after the other without an error, from the
  -- state `first` to this one.
  unfoldable pub Rounds : List ℕ → S → Type ℓ
  Rounds [] s = s ≡ first
  Rounds (n ∷ counts) s =
      (s' : S) × Rounds counts s' × (nonzero (measure n s').0 ≡ false) × (s ≡ (measure n s').2)

  -- The last measurement failed with this error, and those before it did not.
  abbrev pub Failed : ℤ → List ℕ → S → Type ℓ
  Failed err counts s =
      (n : ℕ) × (before : List ℕ) × (s' : S) × (counts ≡ n ∷ before)
      × Rounds before s'
      × (nonzero err ≡ true)
      × (err ≡ (measure n s').0)
      × (s ≡ (measure n s').2)

  -- The loop ends with the error of its last measurement or, where none failed, with success, and
  -- every count is an `int`, and not 0.
  abbrev pub IsCalibrated : Option (ℤ × List ℕ × S) → Type ℓ
  IsCalibrated r =
      (err : ℤ) × (counts : List ℕ) × (s : S) × (r ≡ some (err, counts, s))
      × (((err ≡ aee_success) × Rounds counts s) ⊎ Failed err counts s)
      × All (λ n. (1 ≤ n) × (n < 2 ^ 31)) counts

  Rounds-cons :
      (n : ℕ) (counts : List ℕ) (s : S)
      → Rounds counts s
      → nonzero (measure n s).0 ≡ false
      → Rounds (n ∷ counts) (measure n s).2
  unfolding Rounds
  Rounds-cons n counts s run good = (s, run, good, refl)

  -- One round, given what the next rounds do.
  calibrate_round :
      (fuel : ℕ) (at_limit : ℕ → Bool) (fixed : Bool) (n : ℕ) (counts : List ℕ) (s : S)
      → Rounds counts s
      → All (λ k. (1 ≤ k) × (k < 2 ^ 31)) (n ∷ counts)
      → (at_limit n ≡ false
          → Rounds (n ∷ counts) (measure n s).2
          → IsCalibrated
              (calibrate S measure fuel at_limit fixed (n * 2) (n ∷ counts) (measure n s).2))
      → IsCalibrated (calibrate S measure (suc fuel) at_limit fixed n counts s)
  unfolding calibrate
  calibrate_round fuel at_limit fixed n counts s run measured next =
      elim (Bool-cases (nonzero (measure n s).0)) [
        | inl bad ↦
            let failed : Failed (measure n s).0 (n ∷ counts) (measure n s).2 =
              (n, counts, s, refl, run, bad, refl, refl) in
            rw bad (_, _, _, refl, inr failed, measured)
        | inr good ↦
            let run' = Rounds-cons n counts s run good in
            elim (Bool-cases (fixed || (measure n s).1 || at_limit n)) [
              | inl stop ↦ rw (good, stop) (_, _, _, refl, inl (refl, run'), measured)
              | inr on ↦ rw (good, on) (next (or_last fixed (measure n s).1 (at_limit n) on) run')
            ]
      ]

  calibrate-IsCalibrated :
      (fuel : ℕ) (at_limit : ℕ → Bool) (fixed : Bool) (n : ℕ) (counts : List ℕ) (s : S)
      → ((k : ℕ) → 2 ^ 30 ≤ k → at_limit k ≡ true)
      → 1 ≤ n
      → n < 2 ^ 31
      → 2 ^ 30 ≤ doubled fuel n
      → Rounds counts s
      → All (λ k. (1 ≤ k) × (k < 2 ^ 31)) counts
      → IsCalibrated (calibrate S measure (suc fuel) at_limit fixed n counts s)
  calibrate-IsCalibrated zero at_limit fixed n counts s limit low high enough run measured =
      calibrate_round zero at_limit fixed n counts s run ((low, high), measured)
        (λ below run'.
          let above : at_limit n ≡ true = limit n (omega arith) in
          absurd (true-ne_false (at_limit n) above below))
  calibrate-IsCalibrated (suc fuel) at_limit fixed n counts s limit low high enough run measured =
      calibrate_round (suc fuel) at_limit fixed n counts s run ((low, high), measured)
        (λ below run'.
          let small : n < 2 ^ 30 = below_limit at_limit n limit below in
          calibrate-IsCalibrated fuel at_limit fixed (n * 2) (n ∷ counts) (measure n s).2 limit
            (omega arith) (omega arith) enough run' ((low, high), measured))

  -- 32 rounds are enough for a loop that stops from 2 ^ 30 on.
  pub calibrate_32 :
      (at_limit : ℕ → Bool) (fixed : Bool) (n : ℕ)
      → ((k : ℕ) → 2 ^ 30 ≤ k → at_limit k ≡ true)
      → 1 ≤ n
      → n < 2 ^ 31
      → IsCalibrated (calibrate S measure 32 at_limit fixed n [] first)
  unfolding Rounds
  calibrate_32 at_limit fixed n limit low high =
      calibrate-IsCalibrated 31 at_limit fixed n [] first limit low high (omega arith) refl _

  -- Where `opt->iterations` is an `int`, each of the four calibration loops ends: with the error of
  -- its last measurement, those before it having had none, or, where no measurement failed, with
  -- success. The measurements follow one another from the state at the start to the state at the
  -- end, and every count that is measured is positive and fits into an `int`. The starting counts of
  -- the scenarios are assumed to be positive `int`s.
  pub runs-IsCalibrated :
      (opt : Options) (compute : ComputeScenario) (hmx : HmxScenario)
      → to_ℕ opt.iterations < 2 ^ 31
      → (1 ≤ compute.start_iterations) × (compute.start_iterations < 2 ^ 31)
      → (1 ≤ hmx.start_repeats) × (hmx.start_repeats < 2 ^ 31)
      → IsCalibrated (run_rpc_null S measure first)
        × IsCalibrated (run_compute S measure opt compute first)
        × IsCalibrated (run_hmx_int8 S measure opt hmx first)
        × IsCalibrated (run_mem S measure first)
  unfolding run_rpc_null run_compute run_hmx_int8 run_mem
  runs-IsCalibrated opt compute hmx int of_compute of_hmx =
      let (low, high) = start_bounds opt.iterations compute.start_iterations int of_compute in
      let (low', high') = start_bounds opt.iterations hmx.start_repeats int of_hmx in
      (
        calibrate_32 _ _ 1 (λ k h. ground arith) (omega arith) (omega arith),
        calibrate_32 _ _ _ (λ k h. ground arith) low high,
        calibrate_32 _ _ _ (λ k h. ground arith) low' high',
        calibrate_32 _ _ 1 (λ k h. ground arith) (omega arith) (omega arith),
      )
