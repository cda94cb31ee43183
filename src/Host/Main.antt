-- ===== src/Host/Main.antt =====
-- `main` of host/cdsp_peak.c. What it takes and gives back, and the benchmarks that it runs, are kept
-- in a trace, the last event first. Messages and the rows of the output are left out.
pub mod System
pub mod Control
pub mod Acquire
pub mod Jobs
pub mod Ledger
pub mod Plan
mod Tests
use cdsp_peak.Base.{
  ℕ, ◌*◌, Bool, true, false, not, Option, none, some, List, [], ◌∷◌, if◌then◌else◌, codes,
}
use cdsp_peak.Base.Int.{ℤ, pos, nonzero, to_ℕ}
use cdsp_peak.Aee.{aee_success}
use cdsp_peak.Host.Options.{
  Options, Run, exited, goes_on, UnsignedPd, pd_off, pd_required, pd_optional, parse_options,
  resolve_thread_count, buffer_bytes,
}
use cdsp_peak.Host.Filter.{scenario_enabled}
use cdsp_peak.Host.Arch.{make_uri}
use cdsp_peak.Host.ExeDir.{add_executable_dir_to_dsp_paths}
use cdsp_peak.Host.Power.{apply_power_config}
use cdsp_peak.Host.Scenarios.{
  compute_scenarios, hmx_scenarios, mem_scenarios, any_mem_scenario_enabled,
}
use System.{
  Driver, unsigned_pd_support, vtcm_page, vtcm_count, hmx_support_depth, hmx_support_spatial,
  arch_ver, hvx_support_64b, hvx_support_128b, HmxBuffers, uri_block, handles_block, block,
  rpc_null, taken, Sys, note,
}
use Control.{enable_unsigned_pd, reset_domain_if_requested, query_dsp_capability, query_all}
use Acquire.{Resources, no_hmx, take_block, open_loop, nulls, elements, alloc_buffers, release}
use Jobs.{Bench, run_job, compute_loop, hmx_loop, mem_loop}

module _ (d : Driver) where
  -- From `print_header` to `out`: the error, the HMX buffers and the state.
  unfoldable pub benchmarks : Bench → ℤ → Sys d → ℤ × HmxBuffers × Sys d
  benchmarks b arch sys =
      let (null_err, sys₁) =
        if scenario_enabled b.opt (codes "rpc-null")
        then run_job d b no_hmx rpc_null sys
        else (aee_success, sys) in
      let (compute_err, sys₂) = compute_loop d b no_hmx compute_scenarios 0 sys₁ in
      let (hmx_err, bufs, sys₃) = hmx_loop d b arch hmx_scenarios no_hmx sys₂ in
      let (mem_err, sys₄) = mem_loop d b bufs mem_scenarios sys₃ in
      if nonzero null_err
      then (null_err, no_hmx, sys₁)
      else if nonzero compute_err
      then (compute_err, no_hmx, sys₂)
      else if nonzero hmx_err
      then (hmx_err, bufs, sys₃)
      else (mem_err, bufs, sys₄)

  -- With the handles open and the power votes made: the error, what is held, and the state.
  unfoldable pub with_handles : Options → ℕ → List ℕ → Sys d → ℤ × Resources × Sys d
  with_handles opt bytes handles sys =
      let (info_err, arch, world) = d.get_info (elim handles [ [] ↦ 0 | h ∷ hs ↦ h ]) sys.world in
      let asked = vtcm_page ∷ vtcm_count ∷ hmx_support_depth ∷ hmx_support_spatial ∷ [] in
      let sys₁ : Sys d = record sys { world = query_all d opt.domain asked world } in
      let (alloc_err, srcs, dsts, sys₂) =
        alloc_buffers d (any_mem_scenario_enabled opt mem_scenarios) (to_ℕ opt.threads) bytes
          sys₁ in
      let b : Bench = record {
        opt = opt;
        handles = handles;
        srcs = elements d srcs;
        dsts = elements d dsts;
        bytes = bytes;
      } in
      let (err, bufs, sys₃) = benchmarks b arch sys₂ in
      let held : Resources = record {
        handles = some handles;
        srcs = none;
        dsts = none;
        hmx_buffers = no_hmx;
      } in
      if nonzero info_err
      then (info_err, held, record sys { world = world })
      else if nonzero alloc_err
      then (alloc_err, record held { srcs = srcs; dsts = dsts }, sys₂)
      else (err, record held { srcs = srcs; dsts = dsts; hmx_buffers = bufs }, sys₃)

  -- From `calloc` of the handles to `out`.
  unfoldable pub session : Options → ℕ → List ℕ → Sys d → ℤ × Resources × Sys d
  session opt bytes uri sys =
      let threads = to_ℕ opt.threads in
      let (there, sys₁) = take_block d handles_block (threads * 8) sys in
      let (open_err, handles, sys₂) = open_loop d uri threads sys₁ in
      let (power_err, mask, world) =
        apply_power_config d.aee d.State d.set_power handles opt.power_mode sys₂.world in
      let sys₃ = record sys₂ { world = world } in
      let held : Resources = record {
        handles = some handles;
        srcs = none;
        dsts = none;
        hmx_buffers = no_hmx;
      } in
      if not there
      then (d.errno.enomem, record held { handles = none }, sys₁)
      else if nonzero open_err
      then (open_err, held, sys₂)
      else if nonzero power_err
      then (power_err, held, sys₃)
      else with_handles opt bytes handles sys₃

  -- From the query of the architecture on: the status of the process and the state.
  unfoldable pub connect : Options → ℕ → Sys d → ℕ × Sys d
  connect opt bytes sys =
      let (arch_capability, w₁) = query_dsp_capability d opt.domain arch_ver 68 sys.world in
      let (hvx_64b, w₂) = query_dsp_capability d opt.domain hvx_support_64b 0 w₁ in
      let (hvx_128b, w₃) = query_dsp_capability d opt.domain hvx_support_128b 0 w₂ in
      let opt' = resolve_thread_count opt hvx_64b hvx_128b in
      let sys₀ : Sys d = record sys { world = w₃ } in
      let (uri_err, uri) =
        make_uri d.domains (d.uri_base w₃) (d.heap_there w₃ uri_block) d.errno.enomem
          d.errno.enotsup opt.domain arch_capability in
      elim uri [
        | none ↦ (1, sys₀)
        | some text ↦
            let (err, held, sys₁) = session opt' bytes text (note (taken (block uri_block)) sys₀) in
            (if nonzero err then 1 else 0, release d held sys₁)
      ]

  -- Whether `main` returns after `enable_unsigned_pd`, and the state.
  unfoldable pub unsigned_pd : Options → d.State → Bool × d.State
  unsigned_pd opt w =
      let (err, w') = enable_unsigned_pd d opt.domain (pos 1) w in
      elim opt.unsigned_pd [
        | pd_off ↦ (false, w)
        | pd_required ↦ (nonzero err, w')
        | pd_optional ↦ (false, w')
      ]

  unfoldable pub main : List (List ℕ) → Sys d → ℕ × Sys d
  main args sys = elim (parse_options d.strtol d.strtoull d.domains.cdsp_domain_id args) [
    | exited status ↦ (status, sys)
    | goes_on opt ↦
        let w₁ =
          add_executable_dir_to_dsp_paths d.setenv d.errno (d.readlink sys.world)
            (d.readable sys.world) sys.world in
        elim (buffer_bytes opt.size_mib) [
          | none ↦ (2, record sys { world = w₁ })
          | some bytes ↦
              let w₂ = reset_domain_if_requested d opt.domain opt.reset w₁ in
              let (refused, w₃) =
                unsigned_pd opt (query_all d opt.domain (unsigned_pd_support ∷ []) w₂) in
              if refused
              then (1, record sys { world = w₃ })
              else connect opt bytes (record sys { world = w₃ })
        ]
  ]
