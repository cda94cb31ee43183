-- ===== src/Dsp/Hmx/Resource.antt =====
-- `hmx_resource_acquire` and `hmx_resource_release` of dsp/cdsp_peak_hmx.c.
pub mod Laws
pub mod Block
use cdsp_peak.Base.{
  ℕ, zero, suc, ◌+◌, ◌-◌, ◌*◌, ◌%◌, ◌^◌, ◌≡◌, Bool, true, false, not, ◌&&◌, ◌||◌, Option, none,
  some, List, [], ◌∷◌, u32, ltb, ◌==◌, if◌then◌else◌,
}
use cdsp_peak.Base.Int.{ℤ, pos, nonzero, is_zero, bits32}
use cdsp_peak.Aee.{AeeCodes, aee_success}
use cdsp_peak.Dsp.Hmx.Api
use cdsp_peak.Dsp.Hmx.Api.{
  Symbol, Event, queried_vtcm, inited_attr, got_vtcm_ptr, set_cache_mode, set_hmx_param,
  set_vtcm_param, acquired, acquired_cached, locked, released, released_cached, unlocked, Trace,
}

-- `struct hmx_resource`
pub record HmxResource : Type 0 where
  pub rctx : ℕ
  pub vtcm : ℕ
  pub vtcm_size : ℕ
  pub cached : Bool
  pub locked : Bool

-- `memset(res, 0, sizeof(*res))`
abbrev pub cleared : HmxResource
cleared = record { rctx = 0; vtcm = 0; vtcm_size = 0; cached = false; locked = false }

-- `CDSP_PEAK_HMX_ERR(step, err)`
abbrev pub hmx_err : ℕ → ℤ → ℤ
hmx_err step err = pos (0x7000 + step * 2 ^ 8 + bits32 err % 2 ^ 8)

-- `x & ~(2^k - 1)`
abbrev pub clear_low : ℕ → ℕ → ℕ
clear_low k x = x - x % 2 ^ k

-- What an operation returns: its code, the resource, and the calls made.
abbrev pub Acquired : Type 0
Acquired = ℤ × HmxResource × Trace

-- `hmx_resource_release`
pub hmx_resource_release : HmxResource → Trace → HmxResource × Trace
hmx_resource_release res t =
    let t₁ = if res.locked then unlocked res.rctx ∷ t else t in
    let t₂ = if res.cached then released_cached res.rctx ∷ t₁ else t₁ in
    let t₃ = if res.rctx == 0 then t₂ else released res.rctx ∷ t₂ in (cleared, t₃)

module _ (codes : AeeCodes) (api : Api.Api) where
  open api use {present, query, attr_result, new_rctx, cached_result, get_ptr, lock_result}

  pub has_compute_resource_api : Bool
  has_compute_resource_api =
      present Symbol.attr_init
      && (present Symbol.attr_set_cache_mode
          && (present Symbol.attr_set_vtcm_param_v2
              && (present Symbol.attr_set_hmx_param
                  && (present Symbol.acquire
                      && (present Symbol.attr_get_vtcm_ptr_v2
                          && (present Symbol.release
                              && (present Symbol.acquire_cached
                                  && (present Symbol.release_cached
                                      && (present Symbol.hmx_lock
                                          && present Symbol.hmx_unlock)))))))))

  -- The query of the free VTCM: whether it is known to be too small.
  pub query_too_small : ℕ → Trace → Bool × Trace
  query_too_small required t =
      if present Symbol.query_vtcm
      then (let t' = queried_vtcm ∷ t in
          let (err, available) = query t' in (is_zero err && ltb available required, t'))
      else (false, t)

  -- The four calls that set the attributes up: the error code that the function returns, or 0.
  pub setup_attr : ℕ → Trace → ℤ × Trace
  setup_attr vtcm_size t =
      let t₁ = inited_attr ∷ t in
      if nonzero (attr_result t₁)
      then (hmx_err 1 (attr_result t₁), t₁)
      else let t₂ = set_cache_mode 1 ∷ t₁ in
        if nonzero (attr_result t₂)
        then (hmx_err 2 (attr_result t₂), t₂)
        else let t₃ = set_vtcm_param vtcm_size vtcm_size vtcm_size ∷ t₂ in
          if nonzero (attr_result t₃)
          then (hmx_err 3 (attr_result t₃), t₃)
          else let t₄ = set_hmx_param 1 ∷ t₃ in
            if nonzero (attr_result t₄) then (hmx_err 4 (attr_result t₄), t₄) else (aee_success, t₄)

  -- From the test of `use_lock` on.
  pub take_lock : Bool → HmxResource → Trace → Acquired
  take_lock use_lock res t =
      if use_lock
      then (let err = lock_result t res.rctx in
          let t' = locked res.rctx err ∷ t in
          if nonzero err
          then (let (res', t'') = hmx_resource_release res t' in (hmx_err 8 err, res', t''))
          else (aee_success, record res { locked = true }, t'))
      else (aee_success, res, t)

  -- From the call of `compute_resource_attr_get_vtcm_ptr_v2` on.
  pub take_vtcm : ℕ → Bool → HmxResource → Trace → Acquired
  take_vtcm vtcm_size use_lock res t =
      let t₁ = got_vtcm_ptr ∷ t in
      let (err, vtcm_ptr, vtcm_size') = get_ptr t₁ vtcm_size in
      if nonzero err || (vtcm_ptr == 0)
      then (let t₂ = if res.cached then released_cached res.rctx ∷ t₁ else t₁ in
          (
            hmx_err 7 (if nonzero err then err else codes.enomemory),
            cleared,
            released res.rctx ∷ t₂,
          ))
      else take_lock use_lock (record res { vtcm = vtcm_ptr; vtcm_size = vtcm_size' }) t₁

  -- From the test of `use_cached` on.
  pub take_cached : ℕ → Bool → Bool → HmxResource → Trace → Acquired
  take_cached vtcm_size use_cached use_lock res t =
      if use_cached
      then (let err = cached_result t res.rctx 1000000 in
          let t' = acquired_cached res.rctx err ∷ t in
          if nonzero err
          then (hmx_err 6 err, cleared, released res.rctx ∷ t')
          else take_vtcm vtcm_size use_lock (record res { cached = true }) t')
      else take_vtcm vtcm_size use_lock res t

  -- From `compute_resource_acquire` on.
  pub take_context : ℕ → Bool → Bool → Trace → Acquired
  take_context vtcm_size use_cached use_lock t =
      let rctx = new_rctx t 1000000 in
      let t' = acquired rctx ∷ t in
      if rctx == 0
      then (hmx_err 5 codes.enomemory, cleared, t')
      else take_cached vtcm_size use_cached use_lock (record cleared { rctx = rctx }) t'

  -- `hmx_resource_acquire`
  pub hmx_resource_acquire : ℕ → Bool → Bool → Trace → Acquired
  hmx_resource_acquire required_bytes use_cached use_lock t =
      if not has_compute_resource_api
      then (codes.eunsupported, cleared, t)
      else let vtcm_size = clear_low 12 (u32 (required_bytes + 4095)) in
        let (too_small, t₁) = query_too_small required_bytes t in
        if too_small
        then (hmx_err 0 codes.enomemory, cleared, t₁)
        else let (err, t₂) = setup_attr vtcm_size t₁ in
          if nonzero err then (err, cleared, t₂) else take_context vtcm_size use_cached use_lock t₂
