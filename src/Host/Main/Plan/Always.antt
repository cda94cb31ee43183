-- ===== src/Host/Main/Plan/Always.antt =====
-- Whatever happens in `main` of host/cdsp_peak.c, what ran is the beginning of the plan.
use mathlib.Core.Path.{subst}
use cdsp_peak.Base.{ℕ, ◌*◌, ◌≡◌, ◌∙◌, refl, sym, inl, inr, List, [], ◌∷◌, Bool-cases, Option-cases}
use cdsp_peak.Base.Int.{nonzero, to_ℕ}
use cdsp_peak.Host.Options.{Options, goes_on, parse_options, resolve_thread_count, buffer_bytes}
use cdsp_peak.Host.Arch.{make_uri}
use cdsp_peak.Host.ExeDir.{add_executable_dir_to_dsp_paths}
use cdsp_peak.Host.Filter.{scenario_enabled}
use cdsp_peak.Host.Power.{apply_power_config}
use cdsp_peak.Host.Scenarios.{mem_scenarios, any_mem_scenario_enabled, hmx_scenario_enabled}
use cdsp_peak.Host.Main.{benchmarks, with_handles, session, connect, unsigned_pd, main}
use cdsp_peak.Host.Main.System.{
  Driver, unsigned_pd_support, vtcm_page, vtcm_count, hmx_support_depth, hmx_support_spatial,
  arch_ver, hvx_support_64b, hvx_support_128b, uri_block, handles_block, block, taken, Sys, note,
}
use cdsp_peak.Host.Main.Control.{reset_domain_if_requested, query_dsp_capability, query_all}
use cdsp_peak.Host.Main.Acquire.{take_block, open_loop, elements, alloc_buffers}
use cdsp_peak.Host.Main.Jobs.{Bench}
use cdsp_peak.Host.Main.Ledger.Balance.{start}
use cdsp_peak.Host.Main.Plan.{ran_of, planned}
use cdsp_peak.Host.Main.Plan.Partial.{Begins, Begins-none}
use cdsp_peak.Host.Main.Plan.Quiet.{
  take_block-Quiet, open_loop-Quiet, alloc_buffers-Quiet, release-Quiet,
}
use cdsp_peak.Host.Main.Plan.Begun.{benchmarks-Began}

module _ (d : Driver) where
  -- Between two states ran a beginning of what is planned for an architecture that `get_info` reports.
  abbrev pub BeginsPlan : Options → Sys d → Sys d → Type 0
  BeginsPlan opt sys sys' =
      (handle : ℕ) × (w : d.State) × Begins (planned opt (d.get_info handle w).1) (ran_of sys.trace)
        (ran_of sys'.trace)

  -- Where nothing ran
  quiet_lem :
      (opt : Options) (sys sys' : Sys d)
      → ran_of sys'.trace ≡ ran_of sys.trace
      → BeginsPlan opt sys sys'
  quiet_lem opt sys sys' q =
      let jobs = planned opt (d.get_info 0 sys.world).1 in
      (
        0,
        sys.world,
        subst (Begins jobs (ran_of sys.trace)) (sym q) (Begins-none jobs (ran_of sys.trace)),
      )

  -- Where nothing ran before
  after_quiet :
      (opt : Options) (sys sys₁ sys' : Sys d)
      → ran_of sys₁.trace ≡ ran_of sys.trace
      → BeginsPlan opt sys₁ sys'
      → BeginsPlan opt sys sys'
  after_quiet opt sys sys₁ sys' q (h, w, begins) = (
    h,
    w,
    subst (λ before. Begins (planned opt (d.get_info h w).1) before (ran_of sys'.trace)) q begins,
  )

  with_handles-BeginsPlan :
      (opt : Options) (bytes : ℕ) (hs : List ℕ) (sys : Sys d)
      → BeginsPlan opt sys (with_handles d opt bytes hs sys).2
  unfolding with_handles
  with_handles-BeginsPlan opt bytes hs sys =
      let h : ℕ = elim hs [ [] ↦ 0 | h ∷ t ↦ h ] in
      let info = d.get_info h sys.world in
      let printed = vtcm_page ∷ vtcm_count ∷ hmx_support_depth ∷ hmx_support_spatial ∷ [] in
      let sys₁ : Sys d = record sys { world = query_all d opt.domain printed info.2 } in
      let need_mem = any_mem_scenario_enabled opt mem_scenarios in
      let r₂ = alloc_buffers d need_mem (to_ℕ opt.threads) bytes sys₁ in
      let b : Bench = record {
        opt = opt;
        handles = hs;
        srcs = elements d r₂.1;
        dsts = elements d r₂.2;
        bytes = bytes;
      } in
      let q = alloc_buffers-Quiet d need_mem (to_ℕ opt.threads) bytes sys₁ in
      elim (Bool-cases (nonzero info.0)) [
        | inl e ↦ rw (with_handles, e) (quiet_lem opt sys (record sys { world = info.2 }) refl)
        | inr e ↦ elim (Bool-cases (nonzero r₂.0)) [
          | inl f ↦ rw (with_handles, e, f) (quiet_lem opt sys r₂.3 q)
          | inr f ↦
              rw (with_handles, e, f)
                (after_quiet opt sys r₂.3 (benchmarks d b info.1 r₂.3).2 q
                  (h, sys.world, benchmarks-Began d b info.1 r₂.3))
        ]
      ]

  session-BeginsPlan :
      (opt : Options) (bytes : ℕ) (uri : List ℕ) (sys : Sys d)
      → BeginsPlan opt sys (session d opt bytes uri sys).2
  unfolding session
  session-BeginsPlan opt bytes uri sys =
      let threads = to_ℕ opt.threads in
      let r₁ = take_block d handles_block (threads * 8) sys in
      let r₂ = open_loop d uri threads r₁.1 in
      let p = apply_power_config d.aee d.State d.set_power r₂.1 opt.power_mode r₂.2.world in
      let sys₃ : Sys d = record r₂.2 { world = p.2 } in
      let q₁ = take_block-Quiet d handles_block (threads * 8) sys in
      let q₂ = open_loop-Quiet d uri threads r₁.1 ∙ q₁ in
      elim (Bool-cases r₁.0) [
        | inr e ↦ rw (session, e) (quiet_lem opt sys r₁.1 q₁)
        | inl e ↦ elim (Bool-cases (nonzero r₂.0)) [
          | inl f ↦ rw (session, e, f) (quiet_lem opt sys r₂.2 q₂)
          | inr f ↦ elim (Bool-cases (nonzero p.0)) [
            | inl g ↦ rw (session, e, f, g) (quiet_lem opt sys sys₃ q₂)
            | inr g ↦
                rw (session, e, f, g)
                  (after_quiet opt sys sys₃ (with_handles d opt bytes r₂.1 sys₃).2 q₂
                    (with_handles-BeginsPlan opt bytes r₂.1 sys₃))
          ]
        ]
      ]

  connect-BeginsPlan :
      (opt : Options) (bytes : ℕ) (sys : Sys d) → BeginsPlan opt sys (connect d opt bytes sys).1
  unfolding connect scenario_enabled hmx_scenario_enabled resolve_thread_count
  connect-BeginsPlan opt bytes sys =
      let arch = query_dsp_capability d opt.domain arch_ver 68 sys.world in
      let hvx_64b = query_dsp_capability d opt.domain hvx_support_64b 0 arch.1 in
      let hvx_128b = query_dsp_capability d opt.domain hvx_support_128b 0 hvx_64b.1 in
      let w = hvx_128b.1 in
      let opt' = resolve_thread_count opt hvx_64b.0 hvx_128b.0 in
      let uri =
        (make_uri d.domains (d.uri_base w) (d.heap_there w uri_block) d.errno.enomem d.errno.enotsup
          opt.domain arch.0).1 in
      elim (Option-cases uri) [
        | inl e ↦ rw (connect, e) (quiet_lem opt sys (record sys { world = w }) refl)
        | inr (text, e) ↦
            let sys₁ : Sys d = note (taken (block uri_block)) (record sys { world = w }) in
            let r = session d opt' bytes text sys₁ in
            let (h, w', begins) = session-BeginsPlan opt' bytes text sys₁ in
            rw (connect, e)
              (
                h,
                w',
                subst (Begins (planned opt (d.get_info h w').1) (ran_of sys.trace))
                    (sym (release-Quiet d r.1 r.2)) begins,
              )
      ]

-- When `main` accepts its arguments, then whatever fails, the benchmarks that ran are those that are
-- planned, for the options and an architecture that `get_info` reports, from the first on and in their
-- order; all of them but at most the last returned success.
pub main-Begins :
    (d : Driver) (args : List (List ℕ)) (w : d.State) (opt : Options)
    → parse_options d.strtol d.strtoull d.domains.cdsp_domain_id args ≡ goes_on opt
    → (handle : ℕ) × (w' : d.State) × Begins
        (planned opt (d.get_info handle w').1)
        []
        (ran_of (main d args (start d w)).1.trace)
unfolding main
main-Begins d args w opt e =
    let w₁ = add_executable_dir_to_dsp_paths d.setenv d.errno (d.readlink w) (d.readable w) w in
    let nothing = quiet_lem d opt (start d w) (start d w) refl in
    elim (Option-cases (buffer_bytes opt.size_mib)) [
      | inl f ↦ rw (main, e, f) nothing
      | inr (bytes, f) ↦
          let r = unsigned_pd d opt (
            query_all d opt.domain (unsigned_pd_support ∷ [])
              (reset_domain_if_requested d opt.domain opt.reset w₁)) in
          elim (Bool-cases r.0) [
            | inl g ↦ rw (main, e, f, g) nothing
            | inr g ↦ rw (main, e, f, g) (connect-BeginsPlan d opt bytes (start d r.1))
          ]
    ]
