-- ===== src/Dsp/Power.antt =====
-- dsp/cdsp_peak_power.c: the power votes that `cdsp_peak_set_power` casts through `HAP_power_set`.
pub mod Hap
pub mod Replay
pub mod Votes
mod Tests
use Prim.Native.Nat.{bit_or}
use cdsp_peak.Base.{
  ℕ, zero, suc, ◌+◌, ◌≡◌, Bool, true, false, Option, none, some, List, [], ◌∷◌, ltb, leb, ◌==◌,
  if◌then◌else◌,
}
use cdsp_peak.Base.Int.{ℤ, pos, negsuc, nonzero}
use cdsp_peak.Aee.{AeeCodes, aee_success}
use Hap.{
  CoreParams, DcvsV3, HmxV2, Request, apptype, dcvs_v3, hvx, hmx, hmx_v2, zero_core_params,
  zero_dcvs_v3, zero_hmx_v2, hap_power_compute_client_class, hap_dcvs_vcorner_max,
  hap_dcvs_exp_vcorner_max, hap_clk_perf_high, hap_dcvs_v2_performance_mode,
}

-- The calls of `HAP_power_set` so far, the last one first, each with its `context`.
abbrev pub History : Type 0
History = List (ℕ × Request)

-- What the build and the DSP firmware supply. `HAP_power_set` is a weak symbol: `none` if it is not
-- there. Its result may depend on every call before it. `hvx_arch` is `__HVX_ARCH__`.
pub record Platform : Type 0 where
  pub hap_power_set : Option (History → ℕ → Request → ℤ)
  pub hvx_arch : ℕ

-- The three `rout` values.
pub record Outs : Type 0 where
  pub applied_mask : ℕ
  pub failed_step : ℕ
  pub failed_error : ℤ

abbrev pub outs : ℕ → ℕ → ℤ → Outs
outs mask step err = record { applied_mask = mask; failed_step = step; failed_error = err }

abbrev pub compute_client_request : Request
compute_client_request = apptype hap_power_compute_client_class

abbrev max_corners : CoreParams
max_corners = record zero_core_params {
  min_corner = hap_dcvs_vcorner_max;
  max_corner = hap_dcvs_vcorner_max;
  target_corner = hap_dcvs_vcorner_max;
}

abbrev pub dcvs_max_request : Request
dcvs_max_request = dcvs_v3 (record zero_dcvs_v3 {
  set_dcvs_enable = true;
  dcvs_enable = true;
  dcvs_option = hap_dcvs_v2_performance_mode;
  set_bus_params = true;
  bus_params = max_corners;
  set_core_params = true;
  core_params = max_corners;
  set_sleep_disable = true;
  sleep_disable = 1;
})

abbrev pub hvx_power_request : Request
hvx_power_request = hvx true

abbrev pub hmx_power_request : Request
hmx_power_request = hmx true

abbrev pub hmx_v2_power_request : Request
hmx_v2_power_request = hmx_v2 (record zero_hmx_v2 {
  set_clock = true;
  target_corner = hap_dcvs_exp_vcorner_max;
  min_corner = hap_dcvs_exp_vcorner_max;
  max_corner = hap_dcvs_exp_vcorner_max;
  perf_mode = hap_clk_perf_high;
})

module _ (codes : AeeCodes) (platform : Platform) where
  abbrev call_hap : Option (History → ℕ → Request → ℤ) → ℕ → Request → History → ℤ × History
  call_hap none context r h = (codes.eunsupported, h)
  call_hap (some f) context r h = (f h context r, (context, r) ∷ h)

  pub apply_power_request : ℕ → Request → History → ℤ × History
  apply_power_request context r h = call_hap platform.hap_power_set context r h

  pub set_compute_client : ℕ → History → ℤ × History
  set_compute_client context = apply_power_request context compute_client_request

  pub set_dcvs_max : ℕ → History → ℤ × History
  set_dcvs_max context = apply_power_request context dcvs_max_request

  pub set_hvx_power : ℕ → History → ℤ × History
  set_hvx_power context = apply_power_request context hvx_power_request

  pub set_hmx_power : ℕ → History → ℤ × History
  set_hmx_power context = apply_power_request context hmx_power_request

  pub set_hmx_v2_power : ℕ → History → ℤ × History
  set_hmx_v2_power context = apply_power_request context hmx_v2_power_request

  -- `record_failure` and the return behind it
  abbrev failed : ℕ → ℕ → ℤ → History → ℤ × Option Outs × History
  failed mask step err h = (aee_success, some (outs mask step err), h)

  -- The last part, under `#if __HVX_ARCH__ >= 75`: `HAP_POWER_SET_HMX_V2_DEFINED` is defined.
  pub vote_hmx_v2 : ℕ → ℕ → History → ℤ × Option Outs × History
  vote_hmx_v2 context mask h =
      if leb 75 platform.hvx_arch
      then (let (err, h') = set_hmx_v2_power context h in
          if nonzero err
          then failed mask 5 err h'
          else (aee_success, some (outs (bit_or mask 0x10) 0 (pos 0)), h'))
      else (aee_success, some (outs mask 0 (pos 0)), h)

  pub vote_max : ℕ → History → ℤ × Option Outs × History
  vote_max context h =
      let (err₁, h₁) = set_compute_client context h in
      if nonzero err₁
      then failed 0 1 err₁ h₁
      else let mask₁ = bit_or 0 0x01 in
        let (err₂, h₂) = set_dcvs_max context h₁ in
        if nonzero err₂
        then failed mask₁ 2 err₂ h₂
        else let mask₂ = bit_or mask₁ 0x02 in
          let (err₃, h₃) = set_hvx_power context h₂ in
          if nonzero err₃
          then failed mask₂ 3 err₃ h₃
          else let mask₃ = bit_or mask₂ 0x04 in
            let (err₄, h₄) = set_hmx_power context h₃ in
            if nonzero err₄
            then failed mask₃ 4 err₄ h₄
            else vote_hmx_v2 context (bit_or mask₃ 0x08) h₄

  -- `cdsp_peak_set_power`. `given` tells whether the three out pointers are there; without them
  -- nothing is written. The handle serves as the context: as a pointer, which has 32 bits on the DSP, so
  -- that it is kept where it is one that `open` gave.
  pub set_power : ℕ → ℤ → Bool → History → ℤ × Option Outs × History
  set_power handle mode false h = (codes.ebadparm, none, h)
  set_power handle (pos zero) true h = (aee_success, some (outs 0 0 (pos 0)), h)
  set_power handle (pos (suc zero)) true h = vote_max handle h
  set_power handle (pos (suc (suc n))) true h = (codes.ebadparm, some (outs 0 0 (pos 0)), h)
  set_power handle (negsuc n) true h = (codes.ebadparm, some (outs 0 0 (pos 0)), h)
