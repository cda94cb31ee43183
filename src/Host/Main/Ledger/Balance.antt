-- ===== src/Host/Main/Ledger/Balance.antt =====
-- From its first allocation to its exit, `main` of host/cdsp_peak.c gives back what it takes.
use cdsp_peak.Base.{
  ℕ, ◌+◌, ◌*◌, ◌≡◌, inl, inr, refl, arith, Bool, true, false, List, [], ◌∷◌, if◌then◌else◌,
  Bool-cases, Option-cases, codes,
}
use cdsp_peak.Base.Int.{ℤ, nonzero, to_ℕ}
use cdsp_peak.Aee.{aee_success}
use cdsp_peak.Host.Options.{Options, Run-cases, parse_options, resolve_thread_count, buffer_bytes}
use cdsp_peak.Host.Arch.{make_uri}
use cdsp_peak.Host.ExeDir.{add_executable_dir_to_dsp_paths}
use cdsp_peak.Host.Filter.{scenario_enabled}
use cdsp_peak.Host.Power.{apply_power_config}
use cdsp_peak.Host.Scenarios.{
  compute_scenarios, hmx_scenarios, mem_scenarios, any_mem_scenario_enabled,
}
use cdsp_peak.Host.Main.{benchmarks, with_handles, session, connect, unsigned_pd, main}
use cdsp_peak.Host.Main.System.{
  Driver, LeavesZero, unsigned_pd_support, vtcm_page, vtcm_count, hmx_support_depth,
  hmx_support_spatial, arch_ver, hvx_support_64b, hvx_support_128b, uri_block, handles_block, Item,
  handle, block, rpc_null, taken, Trace, Sys, note,
}
use cdsp_peak.Host.Main.Control.{reset_domain_if_requested, query_dsp_capability, query_all}
use cdsp_peak.Host.Main.Acquire.{release, no_hmx, take_block, open_loop, elements, alloc_buffers}
use cdsp_peak.Host.Main.Jobs.{Bench, run_job, compute_loop, hmx_loop}
use cdsp_peak.Host.Main.Ledger.{
  is_null, weight, null_buffer, sum_of, there_lem, there_none, taken_of, given_of, Gains,
  take_block-Gains, open_loop-Gains, alloc_buffers-Gains,
}
use cdsp_peak.Host.Main.Ledger.Jobs.{
  of_hmx, run_job-Gains, compute_loop-Gains, hmx_loop_lem, mem_loop-Gains,
}
use cdsp_peak.Host.Main.Ledger.Order.{NeverAhead, release-GivesOnly, GivesOnly-NeverAhead}
use cdsp_peak.Host.Main.Ledger.Release.{of_resources, release-GivesBack}

-- The program starts with an empty trace.
abbrev pub start : (d : Driver) → d.State → Sys d
start d w = record { world = w; trace = [] }

-- What was taken was given back, and at no moment was more given back than taken.
abbrev pub IsBalanced : Item → Trace → Type 0
IsBalanced it tr = (taken_of it tr ≡ given_of it tr) × NeverAhead it tr

module _ (d : Driver) (it : Item) (zeros : LeavesZero d) (bad : nonzero d.errno.enomem ≡ true)
    (real : is_null it ≡ false) where
  no_hmx_lem : of_hmx it no_hmx ≡ 0
  no_hmx_lem = omega (arith, null_buffer it real)

  rpc_null-Gains :
      (b : Bench) (sys : Sys d) (asked : Bool)
      → Gains d it sys (if asked then run_job d b no_hmx rpc_null sys else (aee_success, sys)).1 0
  rpc_null-Gains b sys true = run_job-Gains d b it no_hmx rpc_null sys
  rpc_null-Gains b sys false = (omega arith, refl)

  benchmarks-Gains :
      (b : Bench) (arch : ℤ) (sys : Sys d)
      → let r = benchmarks d b arch sys in Gains d it sys r.2 (of_hmx it r.1)
  unfolding benchmarks
  benchmarks-Gains b arch sys =
      let asked = scenario_enabled b.opt (codes "rpc-null") in
      let r₁ = if asked then run_job d b no_hmx rpc_null sys else (aee_success, sys) in
      let r₂ = compute_loop d b no_hmx compute_scenarios 0 r₁.1 in
      let r₃ = hmx_loop d b arch hmx_scenarios no_hmx r₂.1 in
      let g₁ = rpc_null-Gains b sys asked in
      let g₂ = compute_loop-Gains d b it no_hmx compute_scenarios 0 r₁.1 in
      let g₃ = hmx_loop_lem d b it arch hmx_scenarios no_hmx r₂.1 bad (λ z. no_hmx_lem) in
      let g₄ = mem_loop-Gains d b it r₃.1 mem_scenarios r₃.2 in
      elim (Bool-cases (nonzero r₁.0)) [
        | inl e ↦ rw (benchmarks, e) (omega (arith, g₁.0, no_hmx_lem), g₁.1)
        | inr e ↦ elim (Bool-cases (nonzero r₂.0)) [
          | inl f ↦
              rw (benchmarks, e, f)
                (omega (arith, g₁.0, g₂.0, no_hmx_lem), omega (arith, g₁.1, g₂.1))
          | inr f ↦ elim (Bool-cases (nonzero r₃.0)) [
            | inl g ↦
                rw (benchmarks, e, f, g)
                  (omega (arith, g₁.0, g₂.0, g₃.0, no_hmx_lem), omega (arith, g₁.1, g₂.1, g₃.1))
            | inr g ↦
                rw (benchmarks, e, f, g)
                  (
                    omega (arith, g₁.0, g₂.0, g₃.0, g₄.0, no_hmx_lem),
                    omega (arith, g₁.1, g₂.1, g₃.1, g₄.1),
                  )
          ]
        ]
      ]

  -- What is held at the end, the handles among it, which were taken before.
  with_handles_lem :
      (opt : Options) (bytes : ℕ) (hs : List ℕ) (sys : Sys d)
      → let r = with_handles d opt bytes hs sys in
        (taken_of it r.2.trace + (sum_of it handle hs + weight it (block handles_block))
          ≡ of_resources d it r.1 + taken_of it sys.trace)
        × (given_of it r.2.trace ≡ given_of it sys.trace)
  unfolding with_handles
  with_handles_lem opt bytes hs sys =
      let info = d.get_info (elim hs [ [] ↦ 0 | h ∷ t ↦ h ]) sys.world in
      let printed = vtcm_page ∷ vtcm_count ∷ hmx_support_depth ∷ hmx_support_spatial ∷ [] in
      let sys₁ : Sys d = record sys { world = query_all d opt.domain printed info.2 } in
      let r₂ =
        alloc_buffers d (any_mem_scenario_enabled opt mem_scenarios) (to_ℕ opt.threads) bytes
          sys₁ in
      let b : Bench = record {
        opt = opt;
        handles = hs;
        srcs = elements d r₂.1;
        dsts = elements d r₂.2;
        bytes = bytes;
      } in
      let g₂ =
        alloc_buffers-Gains d it (any_mem_scenario_enabled opt mem_scenarios) (to_ℕ opt.threads)
          bytes sys₁ real in
      let g₃ = benchmarks-Gains b info.1 r₂.3 in
      elim (Bool-cases (nonzero info.0)) [
        | inl e ↦ rw (with_handles, e) (omega (arith, no_hmx_lem), refl)
        | inr e ↦ elim (Bool-cases (nonzero r₂.0)) [
          | inl f ↦ rw (with_handles, e, f) (omega (arith, g₂.0, no_hmx_lem), g₂.1)
          | inr f ↦ rw (with_handles, e, f) (omega (arith, g₂.0, g₃.0), omega (arith, g₂.1, g₃.1))
        ]
      ]

  session-Gains :
      (opt : Options) (bytes : ℕ) (uri : List ℕ) (sys : Sys d)
      → let r = session d opt bytes uri sys in Gains d it sys r.2 (of_resources d it r.1)
  unfolding session
  session-Gains opt bytes uri sys =
      let threads = to_ℕ opt.threads in
      let r₁ = take_block d handles_block (threads * 8) sys in
      let r₂ = open_loop d uri threads r₁.1 in
      let p = apply_power_config d.aee d.State d.set_power r₂.1 opt.power_mode r₂.2.world in
      let sys₃ : Sys d = record r₂.2 { world = p.2 } in
      let g₁ = take_block-Gains d it handles_block (threads * 8) threads sys in
      let g₂ = open_loop-Gains d it uri threads r₁.1 zeros real in
      let g₃ = with_handles_lem opt bytes r₂.1 sys₃ in
      elim (Bool-cases r₁.0) [
        | inr e ↦
            let n = there_none d it handles_block r₁.0 threads e in
            rw (session, e) (omega (arith, g₁.0, no_hmx_lem, n), g₁.1)
        | inl e ↦
            let t = there_lem d it handles_block r₁.0 threads e in
            elim (Bool-cases (nonzero r₂.0)) [
              | inl f ↦
                  rw (session, e, f)
                    (omega (arith, g₁.0, g₂.0, t, no_hmx_lem), omega (arith, g₁.1, g₂.1))
              | inr f ↦ elim (Bool-cases (nonzero p.0)) [
                | inl g ↦
                    rw (session, e, f, g)
                      (omega (arith, g₁.0, g₂.0, t, no_hmx_lem), omega (arith, g₁.1, g₂.1))
                | inr g ↦
                    rw (session, e, f, g)
                      (omega (arith, g₁.0, g₂.0, g₃.0, t), omega (arith, g₁.1, g₂.1, g₃.1))
              ]
            ]
      ]

  connect-IsBalanced :
      (opt : Options) (bytes : ℕ) (w₀ : d.State)
      → IsBalanced it (connect d opt bytes (start d w₀)).1.trace
  unfolding connect
  connect-IsBalanced opt bytes w₀ =
      let arch = query_dsp_capability d opt.domain arch_ver 68 w₀ in
      let hvx_64b = query_dsp_capability d opt.domain hvx_support_64b 0 arch.1 in
      let hvx_128b = query_dsp_capability d opt.domain hvx_support_128b 0 hvx_64b.1 in
      let w = hvx_128b.1 in
      let opt' = resolve_thread_count opt hvx_64b.0 hvx_128b.0 in
      let uri =
        (make_uri d.domains (d.uri_base w) (d.heap_there w uri_block) d.errno.enomem d.errno.enotsup
          opt.domain arch.0).1 in
      elim (Option-cases uri) [
        | inl e ↦ rw (connect, e) (refl, _)
        | inr (text, e) ↦
            let sys₁ : Sys d = note (taken (block uri_block)) (start d w) in
            let r = session d opt' bytes text sys₁ in
            let g = session-Gains opt' bytes text sys₁ in
            let h = release-GivesBack d it r.1 r.2 real in
            let even : taken_of it (release d r.1 r.2).trace
                ≡ given_of it (release d r.1 r.2).trace =
              omega (arith, g.0, g.1, h.0, h.1) in
            rw (connect, e)
              (
                even,
                GivesOnly-NeverAhead d it r.2 (release d r.1 r.2) (release-GivesOnly d r.1 r.2) g.1
                    (omega (arith, even)),
              )
      ]

-- Where a failed open leaves the handle at 0: whatever the arguments and whichever step fails, when the
-- process ends `main` has given back every handle, every buffer and every block as often as it took it,
-- and at no moment had it given back more of them than it took.
pub main-IsBalanced :
    (d : Driver) (args : List (List ℕ)) (w : d.State) (it : Item)
    → LeavesZero d
    → is_null it ≡ false
    → IsBalanced it (main d args (start d w)).1.trace
unfolding main
main-IsBalanced d args w it zeros real =
    elim (Run-cases (parse_options d.strtol d.strtoull d.domains.cdsp_domain_id args)) [
      | inl (status, e) ↦ rw (main, e) (refl, _)
      | inr (opt, e) ↦
          let w₁ =
            add_executable_dir_to_dsp_paths d.setenv d.errno (d.readlink w) (d.readable w) w in
          elim (Option-cases (buffer_bytes opt.size_mib)) [
            | inl f ↦ rw (main, e, f) (refl, _)
            | inr (bytes, f) ↦
                let r = unsigned_pd d opt (
                  query_all d opt.domain (unsigned_pd_support ∷ [])
                    (reset_domain_if_requested d opt.domain opt.reset w₁)) in
                elim (Bool-cases r.0) [
                  | inl g ↦ rw (main, e, f, g) (refl, _)
                  | inr g ↦
                      rw (main, e, f, g)
                        (connect-IsBalanced d it zeros d.errno.enomem_error real opt bytes r.1)
                ]
          ]
    ]
