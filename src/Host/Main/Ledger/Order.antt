-- ===== src/Host/Main/Ledger/Order.antt =====
-- In the trace of host/cdsp_peak.c's `main` nothing is given back before it was taken, or twice.
use cdsp_peak.Base.{
  ℕ, ◌≤◌, ◌≡◌, ◌∙◌, refl, sym, ap, inl, inr, arith, Option, none, some, List, [], ◌∷◌, ◌++◌, map,
  ◌==◌, Bool-cases,
}
use mathlib.Core.Path.{subst}
use cdsp_peak.Host.Main.System.{
  Driver, Block, uri_block, handles_block, srcs_block, dsts_block, Item, handle, buffer, block,
  Event, taken, given_back, ran, Trace, Sys,
}
use cdsp_peak.Host.Main.Acquire.{
  Resources, elements, free_buffer, free_buffers, close_one, close_handles, free_block, release,
}
use cdsp_peak.Host.Main.Ledger.{taken_of, given_of}

-- At every moment the item was taken as often as it was given back, or more often.
abbrev pub NeverAhead : Item → Trace → Type 0
NeverAhead it [] = Unit
NeverAhead it (e ∷ tr) = (given_of it (e ∷ tr) ≤ taken_of it (e ∷ tr)) × NeverAhead it tr

given_of-cons : (it : Item) (e : Event) (tr : Trace) → given_of it tr ≤ given_of it (e ∷ tr)
given_of-cons it (taken x) tr = omega arith
given_of-cons it (given_back x) tr = omega arith
given_of-cons it (ran job err) tr = omega arith

pub nothing_given-NeverAhead : (it : Item) (tr : Trace) → given_of it tr ≡ 0 → NeverAhead it tr
nothing_given-NeverAhead it [] e = _
nothing_given-NeverAhead it (ev ∷ tr) e =
    (omega (arith, e), nothing_given-NeverAhead it tr (omega (arith, given_of-cons it ev tr, e)))

-- Giving back does no harm where it is balanced at the end.
pub given_back-NeverAhead :
    (it : Item) (xs : List Item) (tr : Trace)
    → NeverAhead it tr
    → given_of it (map given_back xs ++ tr) ≤ taken_of it (map given_back xs ++ tr)
    → NeverAhead it (map given_back xs ++ tr)
given_back-NeverAhead it [] tr h below = h
given_back-NeverAhead it (x ∷ xs) tr h below =
    (below, given_back-NeverAhead it xs tr h (omega (arith, below)))

module _ (d : Driver) where
  -- From one state to another, items were given back and nothing else happened.
  abbrev pub GivesOnly : Sys d → Sys d → Type 0
  GivesOnly sys sys' = (xs : List Item) × (sys'.trace ≡ map given_back xs ++ sys.trace)

  map-given_back_append :
      (xs ys : List Item) (tr : Trace)
      → map given_back xs ++ (map given_back ys ++ tr) ≡ map given_back (xs ++ ys) ++ tr
  map-given_back_append [] ys tr = refl
  map-given_back_append (x ∷ xs) ys tr = ap (λ t. given_back x ∷ t) (map-given_back_append xs ys tr)

  GivesOnly-trans : (a b c : Sys d) → GivesOnly a b → GivesOnly b c → GivesOnly a c
  GivesOnly-trans a b c (xs, e) (ys, f) =
      (ys ++ xs, f ∙ ap (λ t. map given_back ys ++ t) e ∙ map-given_back_append ys xs a.trace)

  free_buffer-GivesOnly : (p : ℕ) (sys : Sys d) → GivesOnly sys (free_buffer d p sys)
  unfolding free_buffer
  free_buffer-GivesOnly p sys = elim (Bool-cases (p == 0)) [
    | inl e ↦ rw e ([], refl)
    | inr e ↦ rw e (buffer p ∷ [], refl)
  ]

  free_buffers-GivesOnly : (ps : List ℕ) (sys : Sys d) → GivesOnly sys (free_buffers d ps sys)
  unfolding free_buffers
  free_buffers-GivesOnly [] sys = ([], refl)
  free_buffers-GivesOnly (p ∷ ps) sys =
      let sys₁ = free_buffer d p sys in
      GivesOnly-trans sys sys₁ (free_buffers d ps sys₁) (free_buffer-GivesOnly p sys)
        (free_buffers-GivesOnly ps sys₁)

  close_one-GivesOnly : (h : ℕ) (sys : Sys d) → GivesOnly sys (close_one d h sys)
  unfolding close_one
  close_one-GivesOnly h sys = elim (Bool-cases (h == 0)) [
    | inl e ↦ rw e ([], refl)
    | inr e ↦ rw e (handle h ∷ [], refl)
  ]

  close_handles-GivesOnly : (hs : List ℕ) (sys : Sys d) → GivesOnly sys (close_handles d hs sys)
  unfolding close_handles
  close_handles-GivesOnly [] sys = ([], refl)
  close_handles-GivesOnly (h ∷ hs) sys =
      let sys₁ = close_one d h sys in
      GivesOnly-trans sys sys₁ (close_handles d hs sys₁) (close_one-GivesOnly h sys)
        (close_handles-GivesOnly hs sys₁)

  free_block-GivesOnly :
      (b : Block) (xs : Option (List ℕ)) (sys : Sys d) → GivesOnly sys (free_block d b xs sys)
  free_block-GivesOnly b none sys = ([], refl)
  free_block-GivesOnly b (some xs) sys = (block b ∷ [], refl)

  pub release-GivesOnly : (r : Resources) (sys : Sys d) → GivesOnly sys (release d r sys)
  unfolding release
  release-GivesOnly r sys =
      let bufs = r.hmx_buffers in
      let s₁ = free_buffers d (elements d r.srcs) sys in
      let s₂ = free_buffers d (elements d r.dsts) s₁ in
      let s₃ = free_buffer d bufs.activation s₂ in
      let s₄ = free_buffer d bufs.weight s₃ in
      let s₅ = free_buffer d bufs.output s₄ in
      let s₆ = close_handles d (elements d r.handles) s₅ in
      let s₇ = free_block d srcs_block r.srcs s₆ in
      let s₈ = free_block d dsts_block r.dsts s₇ in
      let s₉ = free_block d handles_block r.handles s₈ in
      let g₁ = free_buffers-GivesOnly (elements d r.srcs) sys in
      let g₂ = GivesOnly-trans sys s₁ s₂ g₁ (free_buffers-GivesOnly (elements d r.dsts) s₁) in
      let g₃ = GivesOnly-trans sys s₂ s₃ g₂ (free_buffer-GivesOnly bufs.activation s₂) in
      let g₄ = GivesOnly-trans sys s₃ s₄ g₃ (free_buffer-GivesOnly bufs.weight s₃) in
      let g₅ = GivesOnly-trans sys s₄ s₅ g₄ (free_buffer-GivesOnly bufs.output s₄) in
      let g₆ = GivesOnly-trans sys s₅ s₆ g₅ (close_handles-GivesOnly (elements d r.handles) s₅) in
      let g₇ = GivesOnly-trans sys s₆ s₇ g₆ (free_block-GivesOnly srcs_block r.srcs s₆) in
      let g₈ = GivesOnly-trans sys s₇ s₈ g₇ (free_block-GivesOnly dsts_block r.dsts s₇) in
      let g₉ = GivesOnly-trans sys s₈ s₉ g₈ (free_block-GivesOnly handles_block r.handles s₈) in
      GivesOnly-trans sys s₉ (release d r sys) g₉ (block uri_block ∷ [], refl)

  -- From a state where nothing was given back yet, to one where no more is than was taken.
  pub GivesOnly-NeverAhead :
      (it : Item) (sys sys' : Sys d)
      → GivesOnly sys sys'
      → given_of it sys.trace ≡ 0
      → given_of it sys'.trace ≤ taken_of it sys'.trace
      → NeverAhead it sys'.trace
  GivesOnly-NeverAhead it sys sys' (xs, e) none_given below = subst (NeverAhead it) (sym e) (
      given_back-NeverAhead it xs sys.trace (nothing_given-NeverAhead it sys.trace none_given)
        (subst (λ tr. given_of it tr ≤ taken_of it tr) e below))
