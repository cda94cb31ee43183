-- ===== src/Host/Scenarios/Laws.antt =====
-- The host's table of HMX scenarios against the modes of the DSP, and its buffers against the table.
use cdsp_peak.Base.{
  ℕ, suc, ◌≤◌, ◌≡◌, ◌≢◌, refl, ap, ◌∙◌, arith, Bool, true, none, some, List, [], ◌∷◌, All, codes,
  same_text, same_text_refl,
}
use cdsp_peak.Base.Int.{ℤ, pos}
use cdsp_peak.Dsp.Hmx.Modes.{HmxMode, decode_mode, mode_config}
use cdsp_peak.Dsp.Hmx.Tiles.{Layout, tile}
use cdsp_peak.Dsp.Hmx.Tiles.Built.{
  hmx_int8_tile_uh2x2_full_x64_built, hmx_int4_tile_ub_wn2x_full_x64_built,
}
use cdsp_peak.Host.Options.{Options}
use cdsp_peak.Host.Scenarios.{
  HmxScenario, hmx_scenarios, hmx_scenario_enabled, max_enabled, larger_bytes,
  max_enabled_hmx_activation_bytes, max_enabled_hmx_weight_bytes, max_enabled_hmx_output_bytes,
}

larger_bytes-start : (bytes of_row : ℕ) (enabled : Bool) → bytes ≤ larger_bytes bytes of_row enabled
larger_bytes-start bytes of_row enabled = ground arith

larger_bytes-row :
    (bytes of_row : ℕ) (enabled : Bool)
    → enabled ≡ true
    → of_row ≤ larger_bytes bytes of_row enabled
larger_bytes-row bytes of_row enabled e = ground arith

module _ (bytes_of : HmxScenario → ℕ) (opt : Options) (arch : ℤ) where
  max_enabled-start :
      (scs : List HmxScenario) (bytes : ℕ) → bytes ≤ max_enabled bytes_of opt arch scs bytes
  unfolding max_enabled
  max_enabled-start [] bytes = omega arith
  max_enabled-start (sc ∷ scs) bytes =
      let more = larger_bytes bytes (bytes_of sc) (hmx_scenario_enabled opt sc arch) in
      omega (
        arith,
        max_enabled-start scs more,
        larger_bytes-start bytes (bytes_of sc) (hmx_scenario_enabled opt sc arch),
      )

  max_enabled-All :
      (scs : List HmxScenario) (bytes : ℕ)
      → All
          (λ sc.
            hmx_scenario_enabled opt sc arch ≡ true
            → bytes_of sc ≤ max_enabled bytes_of opt arch scs bytes)
          scs
  unfolding max_enabled
  max_enabled-All [] bytes = _
  max_enabled-All (sc ∷ scs) bytes =
      let enabled = hmx_scenario_enabled opt sc arch in
      let more = larger_bytes bytes (bytes_of sc) enabled in
      (
        (λ e.
            omega
              (arith, max_enabled-start scs more, larger_bytes-row bytes (bytes_of sc) enabled e)),
        max_enabled-All scs more,
      )

-- Whatever the filter and the architecture, each of the three HMX buffers has room for what every
-- enabled scenario passes to the DSP.
pub max_enabled_lem :
    (opt : Options) (arch : ℤ)
    → All
        (λ sc.
          hmx_scenario_enabled opt sc arch ≡ true
          → sc.activation_bytes ≤ max_enabled_hmx_activation_bytes opt arch)
        hmx_scenarios
      × All
          (λ sc.
            hmx_scenario_enabled opt sc arch ≡ true
            → sc.weight_bytes ≤ max_enabled_hmx_weight_bytes opt arch)
          hmx_scenarios
      × All
          (λ sc.
            hmx_scenario_enabled opt sc arch ≡ true
            → sc.output_bytes ≤ max_enabled_hmx_output_bytes opt arch)
          hmx_scenarios
unfolding max_enabled_hmx_activation_bytes max_enabled_hmx_weight_bytes max_enabled_hmx_output_bytes
max_enabled_lem opt arch = (
  max_enabled-All (λ sc. sc.activation_bytes) opt arch hmx_scenarios 0,
  max_enabled-All (λ sc. sc.weight_bytes) opt arch hmx_scenarios 0,
  max_enabled-All (λ sc. sc.output_bytes) opt arch hmx_scenarios 0,
)

-- The DSP knows the scenario's mode, takes its lengths, writes its whole output, and the build for
-- the architecture has its tile.
abbrev pub Runnable : ℕ → HmxScenario → Type 0
Runnable arch sc =
    (m : HmxMode) × (decode_mode (pos sc.mode) ≡ some m)
    × (let c = mode_config m in
        (c.activation_vtcm_len ≤ sc.activation_bytes)
        × (c.weight_vtcm_len ≤ sc.weight_bytes)
        × (c.written_len ≡ sc.output_bytes)
        × ((l : Layout) → tile arch m l ≢ none))

enabled-min_arch :
    (opt : Options) (arch : ℕ) (sc : HmxScenario)
    → opt.scenario_filter ≡ codes "all"
    → hmx_scenario_enabled opt sc (pos (suc arch)) ≡ true
    → sc.default_min_arch ≤ suc arch
unfolding hmx_scenario_enabled
enabled-min_arch opt arch sc e h =
    let all = ap (λ t. same_text t (codes "all")) e ∙ same_text_refl (codes "all") in ground arith

-- On a known architecture the filter `all` enables only scenarios that the DSP's build for this
-- architecture can run, with the lengths that the table gives.
pub hmx_scenario_enabled-Runnable :
    (opt : Options) (arch : ℕ)
    → opt.scenario_filter ≡ codes "all"
    → All
        (λ sc. hmx_scenario_enabled opt sc (pos (suc arch)) ≡ true → Runnable (suc arch) sc)
        hmx_scenarios
unfolding decode_mode mode_config tile
hmx_scenario_enabled-Runnable opt arch e = (
  λ _. (_, refl, (omega arith, omega arith, refl, λ l f. cc)),
  (
    λ _. (_, refl, (omega arith, omega arith, refl, λ l f. cc)),
    (
      λ _. (_, refl, (omega arith, omega arith, refl, λ l f. cc)),
      (
        λ _. (_, refl, (omega arith, omega arith, refl, λ l f. cc)),
        (
          λ _. (_, refl, (omega arith, omega arith, refl, λ l f. cc)),
          (
            λ _. (_, refl, (omega arith, omega arith, refl, λ l f. cc)),
            (
              λ _. (_, refl, (omega arith, omega arith, refl, λ l f. cc)),
              (
                λ _. (_, refl, (omega arith, omega arith, refl, λ l f. cc)),
                (
                  λ _. (_, refl, (omega arith, omega arith, refl, λ l f. cc)),
                  (
                    λ _. (_, refl, (omega arith, omega arith, refl, λ l f. cc)),
                    (
                      λ _. (_, refl, (omega arith, omega arith, refl, λ l f. cc)),
                      (
                        λ h. (
                          _,
                          refl,
                          (
                            omega arith,
                            omega arith,
                            refl,
                            λ l.
                                hmx_int8_tile_uh2x2_full_x64_built (suc arch) l
                                  (enabled-min_arch opt arch _ e h),
                          ),
                        ),
                        (
                          λ _. (_, refl, (omega arith, omega arith, refl, λ l f. cc)),
                          (
                            λ _. (_, refl, (omega arith, omega arith, refl, λ l f. cc)),
                            (
                              λ _. (_, refl, (omega arith, omega arith, refl, λ l f. cc)),
                              (
                                λ h. (
                                  _,
                                  refl,
                                  (
                                    omega arith,
                                    omega arith,
                                    refl,
                                    λ l.
                                        hmx_int4_tile_ub_wn2x_full_x64_built (suc arch) l
                                          (enabled-min_arch opt arch _ e h),
                                  ),
                                ),
                                _,
                              ),
                            ),
                          ),
                        ),
                      ),
                    ),
                  ),
                ),
              ),
            ),
          ),
        ),
      ),
    ),
  ),
)
