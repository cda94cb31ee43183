-- ===== src/Host/Main/Control.antt =====
-- `enable_unsigned_pd`, `reset_domain_if_requested` and `query_dsp_capability` of host/cdsp_peak.c.
use cdsp_peak.Base.{ℕ, Bool, List, [], ◌∷◌, if◌then◌else◌}
use cdsp_peak.Base.Int.{ℤ, nonzero, bits32}
use cdsp_peak.Host.Main.System.{Driver, Capability, process_kill, unsigned_module}

module _ (d : Driver) where
  unfoldable pub enable_unsigned_pd : ℤ → ℤ → d.State → ℤ × d.State
  enable_unsigned_pd domain enable w = d.remote_session_control (unsigned_module domain enable) w

  -- An error is only printed.
  unfoldable pub reset_domain_if_requested : ℤ → Bool → d.State → d.State
  reset_domain_if_requested domain reset w =
      if reset then (d.remote_session_control (process_kill domain) w).1 else w

  -- With what `*capability` holds before the call: what it holds then, and the state.
  unfoldable pub query_dsp_capability : ℤ → Capability → ℕ → d.State → ℕ × d.State
  query_dsp_capability domain attribute capability w =
      let (err, answer, w') = d.remote_handle_control (bits32 domain) attribute w in
      (if nonzero err then capability else answer, w')

  -- Queries of capabilities that are only printed.
  unfoldable pub query_all : ℤ → List Capability → d.State → d.State
  query_all domain [] w = w
  query_all domain (attribute ∷ attributes) w =
      query_all domain attributes (query_dsp_capability domain attribute 0 w).1
