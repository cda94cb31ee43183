-- ===== src/Host/Main/Acquire.antt =====
-- How `main` of host/cdsp_peak.c takes its handles and buffers, and gives them back.
use cdsp_peak.Base.{
  ℕ, zero, suc, ◌*◌, Bool, true, false, not, ◌||◌, Option, none, some, List, [], ◌∷◌, replicate,
  ◌==◌, if◌then◌else◌,
}
use cdsp_peak.Base.Int.{ℤ, nonzero}
use cdsp_peak.Aee.{aee_success}
use cdsp_peak.Host.Buffers.{fill_source}
use cdsp_peak.Host.Main.System.{
  Driver, HmxBuffers, Block, uri_block, handles_block, srcs_block, dsts_block, handle, buffer,
  block, taken, given_back, Sys, note,
}

-- What the variables of `main` hold. The arrays are `none` where `calloc` was not called or gave
-- nothing.
pub record Resources : Type 0 where
  pub handles : Option (List ℕ)
  pub srcs : Option (List ℕ)
  pub dsts : Option (List ℕ)
  pub hmx_buffers : HmxBuffers

abbrev pub no_hmx : HmxBuffers
no_hmx = record { activation = 0; weight = 0; output = 0 }

module _ (d : Driver) where
  unfoldable pub take_block : Block → ℕ → Sys d → Bool × Sys d
  take_block b bytes sys =
      if d.heap_there sys.world b bytes then (true, note (taken (block b)) sys) else (false, sys)

  unfoldable pub rpcmem_alloc : ℕ → Sys d → ℕ × Sys d
  rpcmem_alloc bytes sys =
      let (p, world) = d.rpcmem_alloc bytes sys.world in
      (p, record { world = world; trace = taken (buffer p) ∷ sys.trace })

  -- The loop over the handles that are left: the error, what they hold then, and the state.
  unfoldable pub open_loop : List ℕ → ℕ → Sys d → ℤ × List ℕ × Sys d
  open_loop uri zero sys = (aee_success, [], sys)
  open_loop uri (suc n) sys =
      let (err, h, world) = d.open_handle uri sys.world in
      let (err', hs, sys') =
        open_loop uri n (record { world = world; trace = taken (handle h) ∷ sys.trace }) in
      if nonzero err
      then (err, h ∷ replicate n 0, record sys { world = world })
      else (err', h ∷ hs, sys')

  -- The loop over the buffers that are left: the error, the two arrays, and the state.
  unfoldable pub alloc_loop : ℕ → ℕ → Sys d → ℤ × List ℕ × List ℕ × Sys d
  alloc_loop bytes zero sys = (aee_success, [], [], sys)
  alloc_loop bytes (suc n) sys =
      let (src, sys₁) = rpcmem_alloc bytes sys in
      let (dst, sys₂) = rpcmem_alloc bytes sys₁ in
      let world = d.write dst (replicate bytes 0) (d.write src (fill_source bytes) sys₂.world) in
      let (err, srcs, dsts, sys₃) = alloc_loop bytes n (record sys₂ { world = world }) in
      if (src == 0) || (dst == 0)
      then (d.errno.enomem, src ∷ replicate n 0, dst ∷ replicate n 0, sys₂)
      else (err, src ∷ srcs, dst ∷ dsts, sys₃)

  -- An array of `n` null pointers, if there is one.
  abbrev pub nulls : Bool → ℕ → Option (List ℕ)
  nulls there n = if there then some (replicate n 0) else none

  -- The part under `if (need_mem)`.
  unfoldable pub alloc_buffers :
      Bool → ℕ → ℕ → Sys d → ℤ × Option (List ℕ) × Option (List ℕ) × Sys d
  alloc_buffers need_mem threads bytes sys =
      let (srcs_there, sys₁) = take_block srcs_block (threads * 8) sys in
      let (dsts_there, sys₂) = take_block dsts_block (threads * 8) sys₁ in
      let (err, srcs, dsts, sys₃) = alloc_loop bytes threads sys₂ in
      if not need_mem
      then (aee_success, none, none, sys)
      else if not srcs_there || not dsts_there
      then (d.errno.enomem, nulls srcs_there threads, nulls dsts_there threads, sys₂)
      else (err, some srcs, some dsts, sys₃)

  -- Behind `out`. A null pointer and a handle 0 are left alone.
  unfoldable pub free_buffer : ℕ → Sys d → Sys d
  free_buffer p sys =
      if p == 0
      then sys
      else record { world = d.rpcmem_free p sys.world; trace = given_back (buffer p) ∷ sys.trace }

  unfoldable pub free_buffers : List ℕ → Sys d → Sys d
  free_buffers [] sys = sys
  free_buffers (p ∷ ps) sys = free_buffers ps (free_buffer p sys)

  unfoldable pub close_one : ℕ → Sys d → Sys d
  close_one h sys =
      if h == 0
      then sys
      else record { world = d.close_handle h sys.world; trace = given_back (handle h) ∷ sys.trace }

  unfoldable pub close_handles : List ℕ → Sys d → Sys d
  close_handles [] sys = sys
  close_handles (h ∷ hs) sys = close_handles hs (close_one h sys)

  -- The elements of an array that may be missing.
  abbrev pub elements : Option (List ℕ) → List ℕ
  elements none = []
  elements (some xs) = xs

  abbrev pub free_block : Block → Option (List ℕ) → Sys d → Sys d
  free_block b none sys = sys
  free_block b (some xs) sys = note (given_back (block b)) sys

  unfoldable pub release : Resources → Sys d → Sys d
  release r sys =
      let sys₁ = free_buffers (elements r.dsts) (free_buffers (elements r.srcs) sys) in
      let sys₂ =
        free_buffer r.hmx_buffers.output
          (free_buffer r.hmx_buffers.weight (free_buffer r.hmx_buffers.activation sys₁)) in
      let sys₃ = close_handles (elements r.handles) sys₂ in
      let sys₄ = free_block dsts_block r.dsts (free_block srcs_block r.srcs sys₃) in
      note (given_back (block uri_block)) (free_block handles_block r.handles sys₄)
