-- ===== src/Host/Main/Plan/Completed.antt =====
-- Where `main` of host/cdsp_peak.c returns 0, it has run the whole plan.
use cdsp_peak.Base.{
  ℕ, ◌*◌, ◌≡◌, ◌∙◌, refl, sym, ap, inl, inr, arith, Bool, true, false, List, [], ◌∷◌, ◌++◌,
  if◌then◌else◌, Bool-cases, Option-cases, codes,
}
use cdsp_peak.Base.Int.{ℤ, nonzero, to_ℕ}
use cdsp_peak.Aee.{aee_success}
use cdsp_peak.Host.Options.{Options, goes_on, parse_options, resolve_thread_count, buffer_bytes}
use cdsp_peak.Host.Arch.{make_uri}
use cdsp_peak.Host.ExeDir.{add_executable_dir_to_dsp_paths}
use cdsp_peak.Host.Filter.{scenario_enabled}
use cdsp_peak.Host.Power.{apply_power_config}
use cdsp_peak.Host.Scenarios.{
  compute_scenarios, hmx_scenarios, mem_scenarios, any_mem_scenario_enabled, hmx_scenario_enabled,
}
use cdsp_peak.Host.Main.{benchmarks, with_handles, session, connect, unsigned_pd, main}
use cdsp_peak.Host.Main.System.{
  Driver, unsigned_pd_support, vtcm_page, vtcm_count, hmx_support_depth, hmx_support_spatial,
  arch_ver, hvx_support_64b, hvx_support_128b, uri_block, handles_block, block, rpc_null, taken,
  Sys, note,
}
use cdsp_peak.Host.Main.Control.{reset_domain_if_requested, query_dsp_capability, query_all}
use cdsp_peak.Host.Main.Acquire.{no_hmx, take_block, open_loop, elements, alloc_buffers}
use cdsp_peak.Host.Main.Jobs.{Bench, run_job, compute_loop, hmx_loop, mem_loop}
use cdsp_peak.Host.Main.Ledger.Balance.{start}
use cdsp_peak.Host.Main.Plan.{
  ran_of, then_ran, then_ran-append, planned_null, planned_compute, planned_hmx, planned_mem,
  planned,
}
use cdsp_peak.Host.Main.Plan.Followed.{
  Ran, outcome, asked, run_job-Ran, compute_loop-Ran, hmx_loop-Ran, mem_loop-Ran, plan_from_lem,
}
use cdsp_peak.Host.Main.Plan.Quiet.{
  take_block-Quiet, open_loop-Quiet, alloc_buffers-Quiet, release-Quiet,
}

module _ (d : Driver) (bad : nonzero d.aee.efailed ≡ true)
    (bad' : nonzero d.errno.enomem ≡ true) where
  then_Ran :
      (b : Bench) (js ks : List _) (sys : Sys d) (r r' : ℤ × Sys d)
      → nonzero r.0 ≡ false
      → Ran d b js sys r
      → Ran d b ks r.1 r'
      → Ran d b (js ++ ks) sys r'
  then_Ran b js ks sys r r' e f g h =
      g h ∙ ap (then_ran ks) (f e) ∙ sym (then_ran-append js ks (ran_of sys.trace))

  pub null-Ran :
      (b : Bench) (sys : Sys d) (on : Bool)
      → Ran d b
          (if on then rpc_null ∷ [] else [])
          sys
          (if on then run_job d b no_hmx rpc_null sys else (aee_success, sys))
  null-Ran b sys true = run_job-Ran d b no_hmx rpc_null sys bad
  null-Ran b sys false = λ e. refl

  benchmarks-Ran :
      (b : Bench) (arch : ℤ) (sys : Sys d)
      → Ran d b (planned b.opt arch) sys (outcome d b (benchmarks d b arch sys))
  unfolding benchmarks
  benchmarks-Ran b arch sys =
      let on = scenario_enabled b.opt (codes "rpc-null") in
      let r₁ = if on then run_job d b no_hmx rpc_null sys else (aee_success, sys) in
      let r₂ = compute_loop d b no_hmx compute_scenarios 0 r₁.1 in
      let r₃ = hmx_loop d b arch hmx_scenarios no_hmx r₂.1 in
      let r₄ = mem_loop d b r₃.1 mem_scenarios r₃.2 in
      let h₂ : Ran d b (planned_compute (asked d b)) r₁.1 r₂ = λ e.
        compute_loop-Ran d b no_hmx compute_scenarios 0 r₁.1 bad e
        ∙ ap (λ js. then_ran js (ran_of r₁.1.trace)) (plan_from_lem d b) in
      let h₃ = hmx_loop-Ran d b arch hmx_scenarios no_hmx r₂.1 bad bad' in
      let h₄ = mem_loop-Ran d b r₃.1 mem_scenarios r₃.2 bad in
      elim (Bool-cases (nonzero r₁.0)) [
        | inl e ↦ rw (benchmarks, e) (λ z. absurd cc)
        | inr e ↦ elim (Bool-cases (nonzero r₂.0)) [
          | inl f ↦ rw (benchmarks, e, f) (λ z. absurd cc)
          | inr f ↦ elim (Bool-cases (nonzero r₃.0)) [
            | inl g ↦ rw (benchmarks, e, f, g) (λ z. absurd cc)
            | inr g ↦
                let hmx_jobs = planned_hmx b.opt arch hmx_scenarios in
                let mem_jobs = planned_mem b.opt mem_scenarios in
                let compute_jobs = planned_compute (asked d b) in
                let last = then_Ran b hmx_jobs mem_jobs r₂.1 (r₃.0, r₃.2) r₄ g h₃ h₄ in
                let more = then_Ran b compute_jobs (hmx_jobs ++ mem_jobs) r₁.1 r₂ r₄ f h₂ last in
                rw (benchmarks, e, f, g)
                  (then_Ran b (planned_null b.opt) (compute_jobs ++ (hmx_jobs ++ mem_jobs)) sys r₁
                    r₄ e (null-Ran b sys on) more)
          ]
        ]
      ]

  -- Between two states ran what is planned for an architecture that `get_info` reported.
  abbrev pub Completes : Options → Sys d → Sys d → Type 0
  Completes opt sys sys' =
      (handle : ℕ) × (w : d.State) × (ran_of sys'.trace
        ≡ then_ran (planned opt (d.get_info handle w).1) (ran_of sys.trace))

  with_handles-Completes :
      (opt : Options) (bytes : ℕ) (hs : List ℕ) (sys : Sys d)
      → let r = with_handles d opt bytes hs sys in nonzero r.0 ≡ false → Completes opt sys r.2
  unfolding with_handles
  with_handles-Completes opt bytes hs sys =
      let h : ℕ = elim hs [ [] ↦ 0 | h ∷ t ↦ h ] in
      let info = d.get_info h sys.world in
      let printed = vtcm_page ∷ vtcm_count ∷ hmx_support_depth ∷ hmx_support_spatial ∷ [] in
      let sys₁ : Sys d = record sys { world = query_all d opt.domain printed info.2 } in
      let r₂ =
        alloc_buffers d (any_mem_scenario_enabled opt mem_scenarios) (to_ℕ opt.threads) bytes
          sys₁ in
      let b : Bench = record {
        opt = opt;
        handles = hs;
        srcs = elements d r₂.1;
        dsts = elements d r₂.2;
        bytes = bytes;
      } in
      let q =
        alloc_buffers-Quiet d (any_mem_scenario_enabled opt mem_scenarios) (to_ℕ opt.threads) bytes
          sys₁ in
      elim (Bool-cases (nonzero info.0)) [
        | inl e ↦ rw (with_handles, e) (λ z. absurd cc)
        | inr e ↦ elim (Bool-cases (nonzero r₂.0)) [
          | inl f ↦ rw (with_handles, e, f) (λ z. absurd cc)
          | inr f ↦
              rw (with_handles, e, f)
                (λ z. (
                  h,
                  sys.world,
                  benchmarks-Ran b info.1 r₂.3 z ∙ ap (then_ran (planned opt info.1)) q,
                ))
        ]
      ]

  session-Completes :
      (opt : Options) (bytes : ℕ) (uri : List ℕ) (sys : Sys d)
      → let r = session d opt bytes uri sys in nonzero r.0 ≡ false → Completes opt sys r.2
  unfolding session
  session-Completes opt bytes uri sys =
      let threads = to_ℕ opt.threads in
      let r₁ = take_block d handles_block (threads * 8) sys in
      let r₂ = open_loop d uri threads r₁.1 in
      let p = apply_power_config d.aee d.State d.set_power r₂.1 opt.power_mode r₂.2.world in
      let sys₃ : Sys d = record r₂.2 { world = p.2 } in
      let q =
        open_loop-Quiet d uri threads r₁.1 ∙ take_block-Quiet d handles_block (threads * 8) sys in
      elim (Bool-cases r₁.0) [
        | inr e ↦ rw (session, e) (λ z. absurd cc)
        | inl e ↦ elim (Bool-cases (nonzero r₂.0)) [
          | inl f ↦ rw (session, e, f) (λ z. absurd cc)
          | inr f ↦ elim (Bool-cases (nonzero p.0)) [
            | inl g ↦ rw (session, e, f, g) (λ z. absurd cc)
            | inr g ↦
                rw (session, e, f, g)
                  (λ z.
                    let (h, w, ran) = with_handles-Completes opt bytes r₂.1 sys₃ z in
                    (h, w, ran ∙ ap (then_ran (planned opt (d.get_info h w).1)) q))
          ]
        ]
      ]

  status_lem :
      (err : ℤ)
      → (let status : ℕ = if nonzero err then 1 else 0 in status ≡ 0)
      → nonzero err ≡ false
  status_lem err e = elim (Bool-cases (nonzero err)) [ inl f ↦ absurd (ground arith) | inr f ↦ f ]

  connect-Completes :
      (opt : Options) (bytes : ℕ) (sys : Sys d)
      → let r = connect d opt bytes sys in r.0 ≡ 0 → Completes opt sys r.1
  unfolding connect scenario_enabled hmx_scenario_enabled resolve_thread_count
  connect-Completes opt bytes sys =
      let arch = query_dsp_capability d opt.domain arch_ver 68 sys.world in
      let hvx_64b = query_dsp_capability d opt.domain hvx_support_64b 0 arch.1 in
      let hvx_128b = query_dsp_capability d opt.domain hvx_support_128b 0 hvx_64b.1 in
      let w = hvx_128b.1 in
      let opt' = resolve_thread_count opt hvx_64b.0 hvx_128b.0 in
      let uri =
        (make_uri d.domains (d.uri_base w) (d.heap_there w uri_block) d.errno.enomem d.errno.enotsup
          opt.domain arch.0).1 in
      elim (Option-cases uri) [
        | inl e ↦ rw (connect, e) (λ z. absurd (omega arith))
        | inr (text, e) ↦
            let sys₁ : Sys d = note (taken (block uri_block)) (record sys { world = w }) in
            let r = session d opt' bytes text sys₁ in
            rw (connect, e)
              (λ z.
                let (h, w, ran) = session-Completes opt' bytes text sys₁ (status_lem r.0 z) in
                (h, w, release-Quiet d r.1 r.2 ∙ ran))
      ]

-- When `main` accepts its arguments and returns 0, the benchmarks of the trace are those that are
-- planned for the options and for an architecture that `get_info` reported, in the order of the
-- tables, each once and with success.
pub main-Completes :
    (d : Driver) (args : List (List ℕ)) (w : d.State) (opt : Options)
    → parse_options d.strtol d.strtoull d.domains.cdsp_domain_id args ≡ goes_on opt
    → (main d args (start d w)).0 ≡ 0
    → (handle : ℕ) × (w' : d.State) × (ran_of (main d args (start d w)).1.trace
        ≡ then_ran (planned opt (d.get_info handle w').1) [])
unfolding main
main-Completes d args w opt e =
    let w₁ = add_executable_dir_to_dsp_paths d.setenv d.errno (d.readlink w) (d.readable w) w in
    elim (Option-cases (buffer_bytes opt.size_mib)) [
      | inl f ↦ rw (main, e, f) (λ z. absurd (omega arith))
      | inr (bytes, f) ↦
          let r = unsigned_pd d opt (
            query_all d opt.domain (unsigned_pd_support ∷ [])
              (reset_domain_if_requested d opt.domain opt.reset w₁)) in
          elim (Bool-cases r.0) [
            | inl g ↦ rw (main, e, f, g) (λ z. absurd (omega arith))
            | inr g ↦
                rw (main, e, f, g)
                  (connect-Completes d d.aee.efailed_error d.errno.enomem_error opt bytes
                    (record { world = r.1; trace = [] }))
          ]
    ]
