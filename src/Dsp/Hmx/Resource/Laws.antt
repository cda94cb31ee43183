-- ===== src/Dsp/Hmx/Resource/Laws.antt =====
-- `hmx_resource_acquire` and `hmx_resource_release` keep to the protocol of the resource manager, and
-- no path through them loses track of what is held.
use cdsp_peak.Base.{ℕ, ◌+◌, ◌≡◌, ◌≢◌, ◌⊎◌, arith, Bool, true, false, some, ◌∷◌, u32}
use cdsp_peak.Base.Int.{nonzero}
use cdsp_peak.Aee.{AeeCodes, aee_success}
use cdsp_peak.Dsp.Hmx.Api
use cdsp_peak.Dsp.Hmx.Api.{
  queried_vtcm, got_vtcm_ptr, acquired, acquired_cached, locked, released, released_cached,
  unlocked, Trace, Held, nothing, follow, replay,
}
use cdsp_peak.Dsp.Hmx.Resource.{
  HmxResource, cleared, Acquired, hmx_resource_release, clear_low, query_too_small, setup_attr,
  take_lock, take_vtcm, take_cached, take_context, hmx_resource_acquire,
}

-- What a resource says that it holds.
abbrev pub held_of : HmxResource → Held
held_of res = record { rctx = res.rctx; cached = res.cached; locked = res.locked }

-- A trace after which exactly what the resource says is held, and that is a context at least.
pub record Owns (res : HmxResource) (t : Trace) : Type 0 where
  pub context : res.rctx ≢ 0
  pub held : replay t ≡ some (held_of res)

-- Release gives back all that is held, and clears the resource.
pub hmx_resource_release_lem :
    {res : HmxResource} {t : Trace}
    → Owns res t
    → let (res', t') = hmx_resource_release res t in (replay t' ≡ some nothing) × (res' ≡ cleared)
unfolding hmx_resource_release replay follow
hmx_resource_release_lem o = ground arith

-- Either the resource is owned as it was asked for, or an error is returned and nothing is held.
abbrev pub Settled : Bool → Bool → Acquired → Type 0
Settled use_cached use_lock (ret, res, t) =
    ((ret ≡ aee_success) × Owns res t × (res.cached ≡ use_cached) × (res.locked ≡ use_lock))
    ⊎ ((nonzero ret ≡ true) × (replay t ≡ some nothing) × (res ≡ cleared))

module _ (codes : AeeCodes) (api : Api.Api) where
  take_lock-Settled :
      (use_cached use_lock : Bool) (res : HmxResource) (t : Trace)
      → Owns res t
      → res.cached ≡ use_cached
      → res.locked ≡ false
      → Settled use_cached use_lock (take_lock codes api use_lock res t)
  unfolding take_lock hmx_resource_release replay follow
  take_lock-Settled use_cached use_lock res t o c l = ground arith

  take_vtcm-Settled :
      (vtcm_size : ℕ) (use_cached use_lock : Bool) (res : HmxResource) (t : Trace)
      → Owns res t
      → res.cached ≡ use_cached
      → res.locked ≡ false
      → Settled use_cached use_lock (take_vtcm codes api vtcm_size use_lock res t)
  unfolding take_vtcm replay follow
  take_vtcm-Settled vtcm_size use_cached use_lock res t o c l =
      let (err, vtcm_ptr, vtcm_size') = api.get_ptr (got_vtcm_ptr ∷ t) vtcm_size in
      ground (
        arith,
        take_lock-Settled use_cached use_lock
            (record res { vtcm = vtcm_ptr; vtcm_size = vtcm_size' }) (got_vtcm_ptr ∷ t),
      )

  take_cached-Settled :
      (vtcm_size : ℕ) (use_cached use_lock : Bool) (res : HmxResource) (t : Trace)
      → Owns res t
      → res.cached ≡ false
      → res.locked ≡ false
      → Settled use_cached use_lock (take_cached codes api vtcm_size use_cached use_lock res t)
  unfolding take_cached replay follow
  take_cached-Settled vtcm_size true use_lock res t o c l =
      let err = api.cached_result t res.rctx 1000000 in
      ground (
        arith,
        take_vtcm-Settled vtcm_size true use_lock (record res { cached = true })
            (acquired_cached res.rctx err ∷ t),
      )
  take_cached-Settled vtcm_size false use_lock res t o c l =
      take_vtcm-Settled vtcm_size false use_lock res t o c l

  take_context-Settled :
      (vtcm_size : ℕ) (use_cached use_lock : Bool) (t : Trace)
      → replay t ≡ some nothing
      → Settled use_cached use_lock (take_context codes api vtcm_size use_cached use_lock t)
  unfolding take_context replay follow
  take_context-Settled vtcm_size use_cached use_lock t h =
      let rctx = api.new_rctx t 1000000 in
      ground (
        arith,
        take_cached-Settled vtcm_size use_cached use_lock (record cleared { rctx = rctx })
            (acquired rctx ∷ t),
      )

  query_too_small-replay :
      (required : ℕ) (t : Trace) → replay (query_too_small codes api required t).1 ≡ replay t
  unfolding query_too_small replay follow
  query_too_small-replay required t = ground arith

  setup_attr-replay :
      (vtcm_size : ℕ) (t : Trace) → replay (setup_attr codes api vtcm_size t).1 ≡ replay t
  unfolding setup_attr replay follow
  setup_attr-replay vtcm_size t = ground arith

  -- If nothing is held before, `hmx_resource_acquire` either succeeds, and the resource holds a
  -- context with cached access and the lock exactly as they were asked for, or it returns an error,
  -- has given everything back and cleared the resource. It breaks the protocol on no path.
  pub hmx_resource_acquire_lem :
      (required : ℕ) (use_cached use_lock : Bool) (t : Trace)
      → replay t ≡ some nothing
      → Settled use_cached use_lock (hmx_resource_acquire codes api required use_cached use_lock t)
  unfolding hmx_resource_acquire
  hmx_resource_acquire_lem required use_cached use_lock t h =
      let vtcm_size = clear_low 12 (u32 (required + 4095)) in
      let t₁ = (query_too_small codes api required t).1 in
      let t₂ = (setup_attr codes api vtcm_size t₁).1 in
      ground (
        arith,
        codes.eunsupported_error,
        query_too_small-replay required t,
        setup_attr-replay vtcm_size t₁,
        take_context-Settled vtcm_size use_cached use_lock t₂,
      )
