-- ===== src/Dsp/Power/Tests.antt =====
-- `cdsp_peak_set_power` at a firmware that refuses one kind of request.
use cdsp_peak.Base.{ℕ, ◌≡◌, refl, true, some, [], ◌∷◌, ◌==◌, if◌then◌else◌}
use cdsp_peak.Base.Int.{ℤ, pos, negsuc}
use cdsp_peak.Aee.{AeeCodes, aee_success}
use cdsp_peak.Dsp.Power.Hap.{Request, request_type}
use cdsp_peak.Dsp.Power.{
  History, Platform, Outs, outs, compute_client_request, dcvs_max_request, hvx_power_request,
  set_power, vote_max, set_compute_client, set_dcvs_max, set_hvx_power, apply_power_request,
}
use cdsp_peak.Dsp.Power.Votes.{
  Outcome, max_requests, work_off, set_power-work_off, set_power-Outcome,
}

abbrev codes : AeeCodes
codes = record {
  ebadparm = pos 14;
  eunsupported = pos 20;
  enomemory = pos 2;
  efailed = pos 1;
  ebadparm_error = refl;
  eunsupported_error = refl;
  enomemory_error = refl;
  efailed_error = refl;
}

-- type 2 is `HAP_power_set_HVX`
abbrev refuse_hvx : History → ℕ → Request → ℤ
refuse_hvx h context r = if request_type r == 2 then negsuc 4 else pos 0

abbrev v79 : Platform
v79 = record { hap_power_set = some refuse_hvx; hvx_arch = 79 }

third_fails : set_power codes v79 9 (pos 1) true [] ≡ (
  aee_success,
  some (outs 3 3 (negsuc 4)),
  (9, hvx_power_request) ∷ (9, dcvs_max_request) ∷ (9, compute_client_request) ∷ [],
)
unfolding set_power vote_max set_compute_client set_dcvs_max set_hvx_power apply_power_request
third_fails = refl

set_power-work_off_example :
    (set_power codes v79 9 (pos 1) true []
      ≡ (let (o, h') = work_off codes v79 9 (max_requests 79) 0 [] in (aee_success, some o, h')))
    × (set_power codes v79 9 (pos 0) true [] ≡ (aee_success, some (outs 0 0 (pos 0)), []))
    × (set_power codes v79 9 (pos 5) true [] ≡ (pos 14, some (outs 0 0 (pos 0)), []))
set_power-work_off_example = set_power-work_off codes v79 9 3 []

set_power-Outcome_example :
    (o : Outs) × (h' : History) × (set_power codes v79 9 (pos 1) true []
      ≡ (aee_success, some o, h'))
    × Outcome codes v79 9 refuse_hvx (max_requests 79) 0 [] (o, h')
set_power-Outcome_example = set_power-Outcome codes v79 9 {f = refuse_hvx} [] refl
