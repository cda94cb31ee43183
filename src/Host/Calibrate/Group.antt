-- ===== src/Host/Calibrate/Group.antt =====
-- `choose_group_start_iterations` and `run_compute_group` of host/cdsp_peak.c: the enabled rows of one
-- group are measured with one count, until the shortest of the measurements is long enough.
use cdsp_peak.Base.{
  ℕ, ◌<◌, ◌^◌, refl, inl, inr, arith, Bool, true, false, ◌&&◌, Option, some, List, [], ◌∷◌, All,
  ltb, ◌==◌, if◌then◌else◌, Bool-cases,
}
use cdsp_peak.Base.Int.{ℤ, nonzero, to_ℕ}
use cdsp_peak.Aee.{aee_success}
use cdsp_peak.Host.Options.{Options}
use cdsp_peak.Host.Filter.{scenario_enabled}
use cdsp_peak.Host.Scenarios.{ComputeScenario, compute_scenarios}
use cdsp_peak.Host.Calibrate.{Measure, calibrate, fixed_count}
use cdsp_peak.Host.Calibrate.Laws.{IsCalibrated, Rounds, calibrate_32}

-- The two tests at the head of each of the loops over the rows.
abbrev pub in_group : Options → ℕ → ComputeScenario → Bool
in_group opt group sc = (sc.iteration_group == group) && scenario_enabled opt sc.name

-- The loop of `choose_group_start_iterations` over the rows that are left.
unfoldable pub largest_start : Options → ℕ → List ComputeScenario → ℕ → ℕ
largest_start opt group [] iterations = iterations
largest_start opt group (sc ∷ scs) iterations = largest_start opt group scs (
    if in_group opt group sc && ltb iterations sc.start_iterations
    then sc.start_iterations
    else iterations)

unfoldable pub choose_group_start_iterations : Options → ℕ → ℕ
choose_group_start_iterations opt group =
    if fixed_count opt then to_ℕ opt.iterations else largest_start opt group compute_scenarios 0

if-lt : (b : Bool) (x y m : ℕ) → x < m → y < m → (if b then x else y) < m
if-lt true x y m h h' = h
if-lt false x y m h h' = h'

largest_start-lt :
    (opt : Options) (group : ℕ) (scs : List ComputeScenario) (n : ℕ)
    → n < 2 ^ 31
    → All (λ sc. sc.start_iterations < 2 ^ 31) scs
    → largest_start opt group scs n < 2 ^ 31
unfolding largest_start
largest_start-lt opt group [] n h hs = h
largest_start-lt opt group (sc ∷ scs) n h hs =
    largest_start-lt opt group scs _
      (if-lt (in_group opt group sc && ltb n sc.start_iterations) sc.start_iterations n (2 ^ 31)
        hs.0 h)
      hs.1

choose-lt :
    (opt : Options) (group : ℕ)
    → to_ℕ opt.iterations < 2 ^ 31
    → choose_group_start_iterations opt group < 2 ^ 31
unfolding choose_group_start_iterations
choose-lt opt group h = elim (Bool-cases (fixed_count opt)) [
  | inl e ↦ rw e h
  | inr e ↦ rw e (largest_start-lt opt group compute_scenarios 0 (omega arith) (omega arith))
]

module _ {ℓ} (S : Type ℓ) (measure : ComputeScenario → Measure S) where
  -- One round over the rows that are left: the error, whether all measurements were long, the state.
  unfoldable pub measure_group : Options → ℕ → List ComputeScenario → Measure S
  measure_group opt group [] n s = (aee_success, true, s)
  measure_group opt group (sc ∷ scs) n s = elim (in_group opt group sc) [
    | false ↦ measure_group opt group scs n s
    | true ↦
        let (err, long, s') = measure sc n s in
        let (err', long', s'') = measure_group opt group scs n s' in
        if nonzero err then (err, long, s') else (err', long && long', s'')
  ]

  unfoldable pub run_compute_group : Options → ℕ → S → Option (ℤ × List ℕ × S)
  run_compute_group opt group s =
      let iterations = choose_group_start_iterations opt group in
      if iterations == 0
      then some (aee_success, [], s)
      else calibrate S (measure_group opt group compute_scenarios) 32 (λ n. ltb 0x30000000 n)
          (fixed_count opt) iterations [] s

  -- Where `opt->iterations` is an `int`, the calibration of a group ends: with the error of its last
  -- round, those before it having had none, or, where no round failed, with success, also where the
  -- count to start with is 0 and none is made. The rounds follow one another from the state at the
  -- start to the state at the end, and every count that is measured is positive and fits into an
  -- `int`.
  pub run_compute_group-IsCalibrated :
      (opt : Options) (group : ℕ) (s : S)
      → to_ℕ opt.iterations < 2 ^ 31
      → IsCalibrated S (measure_group opt group compute_scenarios) s (run_compute_group opt group s)
  unfolding run_compute_group Rounds
  run_compute_group-IsCalibrated opt group s h =
      let n = choose_group_start_iterations opt group in
      elim (Bool-cases (n == 0)) [
        | inl e ↦ rw e (_, _, _, refl, inl (refl, refl), _)
        | inr e ↦ rw e (
            calibrate_32 S (measure_group opt group compute_scenarios) s _ _ n (λ k b. ground arith)
              (ground arith) (choose-lt opt group h))
      ]
