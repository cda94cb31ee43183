-- ===== src/Host/Power.antt =====
-- `apply_power_config` of host/cdsp_peak.c: the power votes of every handle.
pub mod Laws
use Prim.Native.Nat.{bit_or}
use cdsp_peak.Base.{ℕ, zero, suc, Bool, true, false, not, List, [], ◌∷◌, ◌==◌, if◌then◌else◌}
use cdsp_peak.Base.Int.{ℤ, pos, nonzero}
use cdsp_peak.Aee.{AeeCodes, aee_success}
use cdsp_peak.Dsp.Power.{Outs, outs}
use cdsp_peak.Host.Options.{PowerMode, power_none, power_max}

-- `cdsp_peak_set_power` through FastRPC: the handle, the mode and the state of the DSP to the result,
-- the three out values and the new state. The out values are 0 where the call writes none.
abbrev pub SetPower {ℓ} : Type ℓ → Type ℓ
SetPower S = ℕ → ℤ → S → ℤ × Outs × S

-- `POWER_NONE` and `POWER_MAX`
abbrev pub power_number : PowerMode → ℤ
power_number power_none = pos 0
power_number power_max = pos 1

module _ {ℓ} (codes : AeeCodes) (S : Type ℓ) (set_power : SetPower S) where
  -- The loop over the handles that are left: the result, `*applied_mask_out` and the state.
  unfoldable pub power_loop : List ℕ → ℤ → ℕ → S → ℤ × ℕ × S
  power_loop [] mode applied_union s = (aee_success, applied_union, s)
  power_loop (handle ∷ handles) mode applied_union s =
      let (err, o, s') = set_power handle mode s in
      let rest = power_loop handles mode (bit_or applied_union o.applied_mask) s' in
      if nonzero err
      then (err, 0, s')
      else if not (o.failed_step == 0)
      then (if nonzero o.failed_error then o.failed_error else codes.efailed, 0, s')
      else rest

  unfoldable pub apply_power_config : List ℕ → PowerMode → S → ℤ × ℕ × S
  apply_power_config handles power_none s = (aee_success, 0, s)
  apply_power_config handles power_max s = power_loop handles (power_number power_max) 0 s
