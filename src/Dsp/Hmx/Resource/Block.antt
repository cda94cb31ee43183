-- ===== src/Dsp/Hmx/Resource/Block.antt =====
-- Where the VTCM of an acquired resource lies.
use cdsp_peak.Base.{ℕ, ◌+◌, ◌≤◌, ◌≡◌, arith, Bool, true, false, ◌∷◌, u32}
use cdsp_peak.Base.Int.{nonzero}
use cdsp_peak.Aee.{AeeCodes}
use cdsp_peak.Dsp.Hmx.Api
use cdsp_peak.Dsp.Hmx.Api.{Trace, got_vtcm_ptr, acquired, acquired_cached}
use cdsp_peak.Dsp.Hmx.Resource.{
  HmxResource, cleared, Acquired, clear_low, query_too_small, setup_attr, take_lock, take_vtcm,
  take_cached, take_context, hmx_resource_acquire,
}

-- A call that reports success hands out a part of the `size` bytes from `base` on.
abbrev pub GivesWithin : ℕ → ℕ → Api.Api → Type 0
GivesWithin base size api =
    (t : Trace) (n : ℕ)
    → nonzero (api.get_ptr t n).0 ≡ false
    → (base ≤ (api.get_ptr t n).1) × ((api.get_ptr t n).1 + (api.get_ptr t n).2 ≤ base + size)

abbrev pub InBlock : ℕ → ℕ → HmxResource → Type 0
InBlock base size res = (base ≤ res.vtcm) × (res.vtcm + res.vtcm_size ≤ base + size)

module _ (base size : ℕ) (codes : AeeCodes) (api : Api.Api)
    (gives : GivesWithin base size api) where
  -- on success
  abbrev Placed : Acquired → Type 0
  Placed r = nonzero r.0 ≡ false → InBlock base size r.1

  take_lock-Placed :
      (use_lock : Bool) (res : HmxResource) (t : Trace)
      → InBlock base size res
      → Placed (take_lock codes api use_lock res t)
  unfolding take_lock
  take_lock-Placed use_lock res t h e = ground arith

  take_vtcm-Placed :
      (n : ℕ) (use_lock : Bool) (res : HmxResource) (t : Trace)
      → Placed (take_vtcm codes api n use_lock res t)
  unfolding take_vtcm
  take_vtcm-Placed n use_lock res t e =
      let (err, ptr, n') = api.get_ptr (got_vtcm_ptr ∷ t) n in
      ground (
        arith,
        gives (got_vtcm_ptr ∷ t) n,
        take_lock-Placed use_lock (record res { vtcm = ptr; vtcm_size = n' }) (got_vtcm_ptr ∷ t),
      )

  take_context-Placed :
      (n : ℕ) (use_cached use_lock : Bool) (t : Trace)
      → Placed (take_context codes api n use_cached use_lock t)
  unfolding take_context take_cached
  take_context-Placed n use_cached use_lock t e =
      let rctx = api.new_rctx t 1000000 in
      let res = record cleared { rctx = rctx } in
      let t₁ = acquired rctx ∷ t in
      let err = api.cached_result t₁ rctx 1000000 in
      ground (
        arith,
        take_vtcm-Placed n use_lock res t₁,
        take_vtcm-Placed n use_lock (record res { cached = true }) (acquired_cached rctx err ∷ t₁),
      )

  -- A resource that was acquired lies in the block from which the manager hands out VTCM.
  pub hmx_resource_acquire-Placed :
      (required : ℕ) (use_cached use_lock : Bool) (t : Trace)
      → Placed (hmx_resource_acquire codes api required use_cached use_lock t)
  unfolding hmx_resource_acquire
  hmx_resource_acquire-Placed required use_cached use_lock t e =
      let n = clear_low 12 (u32 (required + 4095)) in
      let t₁ = (query_too_small codes api required t).1 in
      ground (
        arith,
        codes.eunsupported_error,
        take_context-Placed n use_cached use_lock (setup_attr codes api n t₁).1,
      )
