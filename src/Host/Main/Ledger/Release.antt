-- ===== src/Host/Main/Ledger/Release.antt =====
-- What stands behind the label `out` in host/cdsp_peak.c's `main` gives back everything that is held.
use cdsp_peak.Base.{
  ℕ, ◌+◌, ◌≡◌, inl, inr, refl, arith, false, Option, none, some, List, [], ◌∷◌, ◌==◌, Bool-cases,
}
use cdsp_peak.Host.Main.System.{
  Driver, Block, uri_block, handles_block, srcs_block, dsts_block, Item, handle, buffer, block, Sys,
}
use cdsp_peak.Host.Main.Acquire.{
  Resources, elements, free_buffer, free_buffers, close_one, close_handles, free_block, release,
}
use cdsp_peak.Host.Main.Ledger.{
  is_null, null_buffer, null_handle, weight, taken_of, given_of, sum_of, block_of, of_memory,
}
use cdsp_peak.Host.Main.Ledger.Jobs.{of_hmx}

module _ (d : Driver) (it : Item) where
  -- How often the resources hold the item.
  abbrev pub of_resources : Resources → ℕ
  of_resources r =
      sum_of it handle (elements d r.handles)
      + block_of it handles_block r.handles
      + of_memory d it r.srcs r.dsts
      + of_hmx it r.hmx_buffers

  -- Between two states the item was given back `n` times, and not taken.
  abbrev pub GivesBack : Sys d → Sys d → ℕ → Type 0
  GivesBack sys sys' n =
      (given_of it sys'.trace ≡ n + given_of it sys.trace)
      × (taken_of it sys'.trace ≡ taken_of it sys.trace)

  free_buffer_lem :
      (p : ℕ) (sys : Sys d)
      → is_null it ≡ false
      → GivesBack sys (free_buffer d p sys) (weight it (buffer p))
  unfolding free_buffer
  free_buffer_lem p sys e = elim (Bool-cases (p == 0)) [
    | inl f ↦
        let z : p ≡ 0 = ground arith in
        let w : weight it (buffer p) ≡ 0 = rw z (null_buffer it e) in rw f (omega (arith, w), refl)
    | inr f ↦ rw f (refl, refl)
  ]

  free_buffers_lem :
      (ps : List ℕ) (sys : Sys d)
      → is_null it ≡ false
      → GivesBack sys (free_buffers d ps sys) (sum_of it buffer ps)
  unfolding free_buffers
  free_buffers_lem [] sys e = (omega arith, refl)
  free_buffers_lem (p ∷ ps) sys e =
      let g = free_buffer_lem p sys e in
      let h = free_buffers_lem ps (free_buffer d p sys) e in
      (omega (arith, g.0, h.0), omega (arith, g.1, h.1))

  close_handle_lem :
      (h : ℕ) (sys : Sys d)
      → is_null it ≡ false
      → GivesBack sys (close_one d h sys) (weight it (handle h))
  unfolding close_one
  close_handle_lem h sys e = elim (Bool-cases (h == 0)) [
    | inl f ↦
        let z : h ≡ 0 = ground arith in
        let w : weight it (handle h) ≡ 0 = rw z (null_handle it e) in rw f (omega (arith, w), refl)
    | inr f ↦ rw f (refl, refl)
  ]

  close_handles_lem :
      (hs : List ℕ) (sys : Sys d)
      → is_null it ≡ false
      → GivesBack sys (close_handles d hs sys) (sum_of it handle hs)
  unfolding close_handles
  close_handles_lem [] sys e = (omega arith, refl)
  close_handles_lem (h ∷ hs) sys e =
      let g = close_handle_lem h sys e in
      let g' = close_handles_lem hs (close_one d h sys) e in
      (omega (arith, g.0, g'.0), omega (arith, g.1, g'.1))

  free_block_lem :
      (b : Block) (xs : Option (List ℕ)) (sys : Sys d)
      → GivesBack sys (free_block d b xs sys) (block_of it b xs)
  free_block_lem b none sys = (omega arith, refl)
  free_block_lem b (some xs) sys = (refl, refl)

  pub release-GivesBack :
      (r : Resources) (sys : Sys d)
      → is_null it ≡ false
      → GivesBack sys (release d r sys) (weight it (block uri_block) + of_resources r)
  unfolding release
  release-GivesBack r sys e =
      let bufs = r.hmx_buffers in
      let s₁ = free_buffers d (elements d r.srcs) sys in
      let s₂ = free_buffers d (elements d r.dsts) s₁ in
      let s₃ = free_buffer d bufs.activation s₂ in
      let s₄ = free_buffer d bufs.weight s₃ in
      let s₅ = free_buffer d bufs.output s₄ in
      let s₆ = close_handles d (elements d r.handles) s₅ in
      let s₇ = free_block d srcs_block r.srcs s₆ in
      let s₈ = free_block d dsts_block r.dsts s₇ in
      let g₁ = free_buffers_lem (elements d r.srcs) sys e in
      let g₂ = free_buffers_lem (elements d r.dsts) s₁ e in
      let g₃ = free_buffer_lem bufs.activation s₂ e in
      let g₄ = free_buffer_lem bufs.weight s₃ e in
      let g₅ = free_buffer_lem bufs.output s₄ e in
      let g₆ = close_handles_lem (elements d r.handles) s₅ e in
      let g₇ = free_block_lem srcs_block r.srcs s₆ in
      let g₈ = free_block_lem dsts_block r.dsts s₇ in
      let g₉ = free_block_lem handles_block r.handles s₈ in
      (
        omega (arith, g₁.0, g₂.0, g₃.0, g₄.0, g₅.0, g₆.0, g₇.0, g₈.0, g₉.0),
        omega (arith, g₁.1, g₂.1, g₃.1, g₄.1, g₅.1, g₆.1, g₇.1, g₈.1, g₉.1),
      )
