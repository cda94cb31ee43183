-- ===== src/Dsp/Hmx/Api.antt =====
-- The compute resource manager that dsp/cdsp_peak_hmx.c calls (`compute_resource_*`, weak symbols of
-- the DSP firmware), as a parameter: what is there, and what each call returns after the calls made
-- before it. Beside it stands the protocol of the manager, which says how its calls may follow one
-- another.
use cdsp_peak.Base.{ℕ, Bool, true, false, not, Option, none, some, List, [], ◌∷◌, ◌==◌, ◌&&◌}
use cdsp_peak.Base.Int.{ℤ, is_zero}

-- The twelve symbols.
pub data Symbol : Type 0 where
  query_vtcm attr_init attr_set_cache_mode attr_set_vtcm_param_v2 attr_set_hmx_param : Symbol
  acquire acquire_cached attr_get_vtcm_ptr_v2 release release_cached hmx_lock hmx_unlock : Symbol

-- A call that was made, with its arguments, and with its result where that decides what is held.
-- A context that was not acquired is 0.
pub data Event : Type 0 where
  queried_vtcm inited_attr got_vtcm_ptr : Event
  set_cache_mode set_hmx_param : ℕ → Event
  set_vtcm_param : (vtcm_size page_size min_size : ℕ) → Event
  acquired : (rctx : ℕ) → Event
  acquired_cached locked : (rctx : ℕ) → (err : ℤ) → Event
  released released_cached unlocked : (rctx : ℕ) → Event

-- the last call first
abbrev pub Trace : Type 0
Trace = List Event

-- A call's result is a function of the calls made so far (with the call itself, where its event does
-- not carry the result). `query` and `get_ptr` give an error code and what the out parameters hold
-- afterwards.
pub record Api : Type 0 where
  pub present : Symbol → Bool
  pub query : Trace → ℤ × ℕ
  pub attr_result : Trace → ℤ
  pub new_rctx : Trace → (timeout_us : ℕ) → ℕ
  pub cached_result : Trace → (rctx timeout_us : ℕ) → ℤ
  pub get_ptr : Trace → (vtcm_size : ℕ) → ℤ × ℕ × ℕ
  pub lock_result : Trace → (rctx : ℕ) → ℤ

-- What is held: a context (0 for none), cached access to it, the HMX lock on it.
pub record Held : Type 0 where
  pub rctx : ℕ
  pub cached : Bool
  pub locked : Bool

abbrev pub nothing : Held
nothing = record { rctx = 0; cached = false; locked = false }

abbrev pub require : Bool → Held → Option Held
require true h = some h
require false h = none

-- `a` is the context held
abbrev pub holds : Held → ℕ → Bool
holds h a = not (a == 0) && (h.rctx == a)

-- The protocol: one context at a time, a failed call changes nothing, cached access and the lock are
-- taken at most once and of the held context, and what was taken later is given back earlier.
unfoldable pub follow : Held → Event → Option Held
follow h queried_vtcm = some h
follow h inited_attr = some h
follow h got_vtcm_ptr = some h
follow h (set_cache_mode m) = some h
follow h (set_hmx_param e) = some h
follow h (set_vtcm_param s p m) = some h
follow h (acquired a) = require (h.rctx == 0) (record h { rctx = a })
follow h (acquired_cached a err) =
    require (holds h a && not h.cached && not h.locked) (record h { cached = is_zero err })
follow h (locked a err) = require (holds h a && not h.locked) (record h { locked = is_zero err })
follow h (unlocked a) = require (holds h a && h.locked) (record h { locked = false })
follow h (released_cached a) =
    require (holds h a && h.cached && not h.locked) (record h { cached = false })
follow h (released a) = require (holds h a && not h.cached && not h.locked) nothing

-- What is held after a trace; `none` where a call broke the protocol.
unfoldable pub replay : Trace → Option Held
replay [] = some nothing
replay (e ∷ t) = elim (replay t) [ none ↦ none | some h ↦ follow h e ]
