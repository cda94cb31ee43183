-- ===== src/Host/Calibrate.antt =====
-- The calibration loops of host/cdsp_peak.c: `run_rpc_null`, `run_compute`, `run_hmx_int8` and
-- `run_mem` double the work until a measurement is long enough. A measurement is a parameter, since
-- its time is the clock's; the row that is printed at the end is left out.
pub mod Laws
pub mod Group
use cdsp_peak.Base.{
  ℕ, zero, suc, ◌*◌, ◌^◌, Bool, true, false, not, ◌||◌, Option, none, some, List, [], ◌∷◌, ltb, leb,
  ◌==◌, if◌then◌else◌,
}
use cdsp_peak.Base.Int.{ℤ, pos, nonzero, not_positive, to_ℕ}
use cdsp_peak.Aee.{aee_success}
use cdsp_peak.Host.Options.{Options}
use cdsp_peak.Host.Scenarios.{ComputeScenario, HmxScenario}

-- With a count and the state: the error, whether `elapsed_ms >= min_ms`, and the new state.
abbrev pub Measure {ℓ} : Type ℓ → Type ℓ
Measure S = ℕ → S → ℤ × Bool × S

-- `opt->iterations > 0`
abbrev pub fixed_count : Options → Bool
fixed_count opt = not (not_positive opt.iterations)

module _ {ℓ} (S : Type ℓ) (measure : Measure S) where
  -- The error, the counts that were measured, the last one first, and the state; `none` if the fuel
  -- runs out. `at_limit` is the loop's test of the count, `fixed` its other reason to stop.
  unfoldable pub calibrate : ℕ → (ℕ → Bool) → Bool → ℕ → List ℕ → S → Option (ℤ × List ℕ × S)
  calibrate zero at_limit fixed n counts s = none
  calibrate (suc fuel) at_limit fixed n counts s =
      let (err, long, s') = measure n s in
      let rest = calibrate fuel at_limit fixed (n * 2) (n ∷ counts) s' in
      if nonzero err
      then some (err, n ∷ counts, s')
      else if fixed || long || at_limit n
      then some (aee_success, n ∷ counts, s')
      else rest

  unfoldable pub run_rpc_null : S → Option (ℤ × List ℕ × S)
  run_rpc_null s = calibrate 32 (λ calls. leb (2 ^ 24) calls) false 1 [] s

  -- `MAX_COMPUTE_ITERATIONS` is 0x30000000.
  unfoldable pub run_compute : Options → ComputeScenario → S → Option (ℤ × List ℕ × S)
  run_compute opt scenario s =
      let start = if fixed_count opt then to_ℕ opt.iterations else scenario.start_iterations in
      calibrate 32 (λ iterations. ltb 0x30000000 iterations) (fixed_count opt) start [] s

  -- `MAX_HMX_REPEATS` is 0x1000000; a probe has no operations.
  unfoldable pub run_hmx_int8 : Options → HmxScenario → S → Option (ℤ × List ℕ × S)
  run_hmx_int8 opt scenario s =
      let start = if fixed_count opt then to_ℕ opt.iterations else scenario.start_repeats in
      calibrate 32 (λ repeats. leb 0x1000000 repeats)
        ((scenario.ops_per_repeat == 0) || fixed_count opt) start [] s

  unfoldable pub run_mem : S → Option (ℤ × List ℕ × S)
  run_mem s = calibrate 32 (λ repeats. ltb (2 ^ 24) repeats) false 1 [] s
