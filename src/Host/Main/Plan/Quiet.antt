-- ===== src/Host/Main/Plan/Quiet.antt =====
-- Taking and giving back, in host/cdsp_peak.c's `main`, runs no benchmark.
use cdsp_peak.Base.{
  ℕ, zero, suc, ◌*◌, ◌≡◌, ◌∙◌, refl, inl, inr, Bool, true, false, not, ◌||◌, Option, none, some,
  List, [], ◌∷◌, replicate, ◌==◌, Bool-cases,
}
use cdsp_peak.Base.Int.{nonzero}
use cdsp_peak.Host.Buffers.{fill_source}
use cdsp_peak.Host.Main.System.{
  Driver, Block, srcs_block, dsts_block, handles_block, handle, buffer, taken, Sys,
}
use cdsp_peak.Host.Main.Acquire.{
  Resources, take_block, rpcmem_alloc, open_loop, alloc_loop, elements, alloc_buffers, free_buffer,
  free_buffers, close_one, close_handles, free_block, release,
}
use cdsp_peak.Host.Main.Plan.{ran_of}

module _ (d : Driver) where
  -- No benchmark ran between the two states.
  abbrev pub Quiet : Sys d → Sys d → Type 0
  Quiet sys sys' = ran_of sys'.trace ≡ ran_of sys.trace

  pub take_block-Quiet :
      (b : Block) (bytes : ℕ) (sys : Sys d) → Quiet sys (take_block d b bytes sys).1
  unfolding take_block
  take_block-Quiet b bytes sys = elim (Bool-cases (d.heap_there sys.world b bytes)) [
    | inl e ↦ rw e refl
    | inr e ↦ rw e refl
  ]

  pub open_loop-Quiet : (uri : List ℕ) (n : ℕ) (sys : Sys d) → Quiet sys (open_loop d uri n sys).2
  unfolding open_loop
  open_loop-Quiet uri zero sys = refl
  open_loop-Quiet uri (suc n) sys =
      let r = d.open_handle uri sys.world in
      elim (Bool-cases (nonzero r.0)) [
        | inl e ↦ rw e refl
        | inr e ↦
            rw e (
              open_loop-Quiet uri n
                (record { world = r.2; trace = taken (handle r.1) ∷ sys.trace }))
      ]

  alloc_loop-Quiet : (bytes n : ℕ) (sys : Sys d) → Quiet sys (alloc_loop d bytes n sys).3
  unfolding alloc_loop rpcmem_alloc
  alloc_loop-Quiet bytes zero sys = refl
  alloc_loop-Quiet bytes (suc n) sys =
      let s = d.rpcmem_alloc bytes sys.world in
      let t = d.rpcmem_alloc bytes s.1 in
      let next : Sys d = record {
        world = d.write t.0 (replicate bytes 0) (d.write s.0 (fill_source bytes) t.1);
        trace = taken (buffer t.0) ∷ taken (buffer s.0) ∷ sys.trace;
      } in
      elim (Bool-cases ((s.0 == 0) || (t.0 == 0))) [
        | inl e ↦ rw e refl
        | inr e ↦ rw e (alloc_loop-Quiet bytes n next)
      ]

  pub alloc_buffers-Quiet :
      (need_mem : Bool) (threads bytes : ℕ) (sys : Sys d)
      → Quiet sys (alloc_buffers d need_mem threads bytes sys).3
  unfolding alloc_buffers
  alloc_buffers-Quiet false threads bytes sys = refl
  alloc_buffers-Quiet true threads bytes sys =
      let r₁ = take_block d srcs_block (threads * 8) sys in
      let r₂ = take_block d dsts_block (threads * 8) r₁.1 in
      let q =
        take_block-Quiet dsts_block (threads * 8) r₁.1
        ∙ take_block-Quiet srcs_block (threads * 8) sys in
      elim (Bool-cases (not r₁.0 || not r₂.0)) [
        | inl e ↦ rw e q
        | inr e ↦ rw e (alloc_loop-Quiet bytes threads r₂.1 ∙ q)
      ]

  free_buffer-Quiet : (p : ℕ) (sys : Sys d) → Quiet sys (free_buffer d p sys)
  unfolding free_buffer
  free_buffer-Quiet p sys = elim (Bool-cases (p == 0)) [ inl e ↦ rw e refl | inr e ↦ rw e refl ]

  free_buffers-Quiet : (ps : List ℕ) (sys : Sys d) → Quiet sys (free_buffers d ps sys)
  unfolding free_buffers
  free_buffers-Quiet [] sys = refl
  free_buffers-Quiet (p ∷ ps) sys =
      free_buffers-Quiet ps (free_buffer d p sys) ∙ free_buffer-Quiet p sys

  close_one-Quiet : (h : ℕ) (sys : Sys d) → Quiet sys (close_one d h sys)
  unfolding close_one
  close_one-Quiet h sys = elim (Bool-cases (h == 0)) [ inl e ↦ rw e refl | inr e ↦ rw e refl ]

  close_handles-Quiet : (hs : List ℕ) (sys : Sys d) → Quiet sys (close_handles d hs sys)
  unfolding close_handles
  close_handles-Quiet [] sys = refl
  close_handles-Quiet (h ∷ hs) sys =
      close_handles-Quiet hs (close_one d h sys) ∙ close_one-Quiet h sys

  free_block-Quiet :
      (b : Block) (xs : Option (List ℕ)) (sys : Sys d) → Quiet sys (free_block d b xs sys)
  free_block-Quiet b none sys = refl
  free_block-Quiet b (some xs) sys = refl

  pub release-Quiet : (r : Resources) (sys : Sys d) → Quiet sys (release d r sys)
  unfolding release
  release-Quiet r sys =
      let bufs = r.hmx_buffers in
      let s₁ = free_buffers d (elements d r.srcs) sys in
      let s₂ = free_buffers d (elements d r.dsts) s₁ in
      let s₃ = free_buffer d bufs.activation s₂ in
      let s₄ = free_buffer d bufs.weight s₃ in
      let s₅ = free_buffer d bufs.output s₄ in
      let s₆ = close_handles d (elements d r.handles) s₅ in
      let s₇ = free_block d srcs_block r.srcs s₆ in
      let s₈ = free_block d dsts_block r.dsts s₇ in
      free_block-Quiet handles_block r.handles s₈
      ∙ free_block-Quiet dsts_block r.dsts s₇
      ∙ free_block-Quiet srcs_block r.srcs s₆
      ∙ close_handles-Quiet (elements d r.handles) s₅
      ∙ free_buffer-Quiet bufs.output s₄
      ∙ free_buffer-Quiet bufs.weight s₃
      ∙ free_buffer-Quiet bufs.activation s₂
      ∙ free_buffers-Quiet (elements d r.dsts) s₁
      ∙ free_buffers-Quiet (elements d r.srcs) sys
