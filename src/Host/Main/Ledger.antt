-- ===== src/Host/Main/Ledger.antt =====
-- The ledger of host/cdsp_peak.c's `main`: how often a handle, a buffer or a block was taken and given
-- back, and what the loops that take them add to it.
pub mod Jobs
pub mod Release
pub mod Order
pub mod Balance
use cdsp_peak.Base.{
  ℕ, zero, suc, ◌+◌, ◌*◌, ◌≡◌, inl, inr, refl, sym, arith, Bool, true, false, not, ◌||◌, Option,
  none, some, List, [], ◌∷◌, replicate, ◌==◌, if◌then◌else◌, Bool-cases,
}
use cdsp_peak.Base.Int.{ℤ, nonzero}
use cdsp_peak.Host.Buffers.{fill_source}
use cdsp_peak.Host.Main.System.{
  Driver, LeavesZero, HmxBuffers, Block, uri_block, handles_block, srcs_block, dsts_block, Item,
  handle, buffer, block, Event, taken, given_back, ran, Trace, Sys, note,
}
use cdsp_peak.Host.Main.Acquire.{
  Resources, take_block, rpcmem_alloc, open_loop, alloc_loop, nulls, elements, alloc_buffers,
}

abbrev same_block : Block → Block → Bool
same_block uri_block uri_block = true
same_block handles_block handles_block = true
same_block srcs_block srcs_block = true
same_block dsts_block dsts_block = true
same_block a b = false

-- 1 where the two are the same, and 0 otherwise
abbrev pub weight : Item → Item → ℕ
weight (handle a) (handle b) = if a == b then 1 else 0
weight (buffer a) (buffer b) = if a == b then 1 else 0
weight (block a) (block b) = if same_block a b then 1 else 0
weight a b = 0

-- The handle 0 and the null pointer stand for nothing.
abbrev pub is_null : Item → Bool
is_null (handle h) = h == 0
is_null (buffer p) = p == 0
is_null (block b) = false

abbrev pub taken_of : Item → Trace → ℕ
taken_of it [] = 0
taken_of it (taken x ∷ tr) = weight it x + taken_of it tr
taken_of it (given_back x ∷ tr) = taken_of it tr
taken_of it (ran job err ∷ tr) = taken_of it tr

abbrev pub given_of : Item → Trace → ℕ
given_of it [] = 0
given_of it (taken x ∷ tr) = given_of it tr
given_of it (given_back x ∷ tr) = weight it x + given_of it tr
given_of it (ran job err ∷ tr) = given_of it tr

-- How often an array of handles or buffers, or a block, has the item.
abbrev pub sum_of : Item → (ℕ → Item) → List ℕ → ℕ
sum_of it kind [] = 0
sum_of it kind (x ∷ xs) = weight it (kind x) + sum_of it kind xs

abbrev pub block_of : Item → Block → Option (List ℕ) → ℕ
block_of it b none = 0
block_of it b (some xs) = weight it (block b)

pub null_handle : (it : Item) → is_null it ≡ false → weight it (handle 0) ≡ 0
null_handle (handle h) e = ground arith
null_handle (buffer p) e = refl
null_handle (block b) e = refl

pub null_buffer : (it : Item) → is_null it ≡ false → weight it (buffer 0) ≡ 0
null_buffer (handle h) e = refl
null_buffer (buffer p) e = ground arith
null_buffer (block b) e = refl

sum_of-replicate :
    (it : Item) (kind : ℕ → Item) (n : ℕ)
    → weight it (kind 0) ≡ 0
    → sum_of it kind (replicate n 0) ≡ 0
sum_of-replicate it kind zero e = refl
sum_of-replicate it kind (suc n) e = omega (arith, sum_of-replicate it kind n e)

module _ (d : Driver) (it : Item) where
  -- Between two states the item was taken `n` times, and not given back.
  abbrev pub Gains : Sys d → Sys d → ℕ → Type 0
  Gains sys sys' n =
      (taken_of it sys'.trace ≡ n + taken_of it sys.trace)
      × (given_of it sys'.trace ≡ given_of it sys.trace)

  pub Gains-trans : (a b c : Sys d) (m n : ℕ) → Gains a b m → Gains b c n → Gains a c (m + n)
  Gains-trans a b c m n g h = (omega (arith, g.0, h.0), omega (arith, g.1, h.1))

  pub take_block-Gains :
      (b : Block) (bytes n : ℕ) (sys : Sys d)
      → let (there, sys') = take_block d b bytes sys in
        Gains sys sys' (block_of it b (nulls d there n))
  unfolding take_block
  take_block-Gains b bytes n sys = elim (Bool-cases (d.heap_there sys.world b bytes)) [
    | inl e ↦ rw e (refl, refl)
    | inr e ↦ rw e (omega arith, refl)
  ]

  pub open_loop-Gains :
      (uri : List ℕ) (n : ℕ) (sys : Sys d)
      → LeavesZero d
      → is_null it ≡ false
      → let (err, handles, sys') = open_loop d uri n sys in
        Gains sys sys' (sum_of it handle handles)
  unfolding open_loop
  open_loop-Gains uri zero sys zeros e = (omega arith, refl)
  open_loop-Gains uri (suc n) sys zeros e =
      let r = d.open_handle uri sys.world in
      let next : Sys d = record { world = r.2; trace = taken (handle r.1) ∷ sys.trace } in
      let later = open_loop-Gains uri n next zeros e in
      elim (Bool-cases (nonzero r.0)) [
        | inl f ↦
            rw (f, zeros uri sys.world f)
              (
                omega (arith, null_handle it e, sum_of-replicate it handle n (null_handle it e)),
                refl,
              )
        | inr f ↦ rw f (omega (arith, later.0), later.1)
      ]

  pub alloc_loop-Gains :
      (bytes n : ℕ) (sys : Sys d)
      → is_null it ≡ false
      → let (err, srcs, dsts, sys') = alloc_loop d bytes n sys in
        Gains sys sys' (sum_of it buffer srcs + sum_of it buffer dsts)
  unfolding alloc_loop rpcmem_alloc
  alloc_loop-Gains bytes zero sys e = (omega arith, refl)
  alloc_loop-Gains bytes (suc n) sys e =
      let zeros = sum_of-replicate it buffer n (null_buffer it e) in
      let s = d.rpcmem_alloc bytes sys.world in
      let t = d.rpcmem_alloc bytes s.1 in
      let next : Sys d = record {
        world = d.write t.0 (replicate bytes 0) (d.write s.0 (fill_source bytes) t.1);
        trace = taken (buffer t.0) ∷ taken (buffer s.0) ∷ sys.trace;
      } in
      let later = alloc_loop-Gains bytes n next e in
      elim (Bool-cases ((s.0 == 0) || (t.0 == 0))) [
        | inl f ↦ rw f (omega (arith, zeros), refl)
        | inr f ↦ rw f (omega (arith, later.0), later.1)
      ]

  -- The buffers, and the two arrays
  abbrev pub of_memory : Option (List ℕ) → Option (List ℕ) → ℕ
  of_memory srcs dsts =
      sum_of it buffer (elements d srcs)
      + sum_of it buffer (elements d dsts)
      + (block_of it srcs_block srcs + block_of it dsts_block dsts)

  nulls_lem :
      (b : Block) (there : Bool) (n : ℕ)
      → is_null it ≡ false
      → sum_of it buffer (elements d (nulls d there n)) ≡ 0
  nulls_lem b true n e = sum_of-replicate it buffer n (null_buffer it e)
  nulls_lem b false n e = refl

  pub there_none :
      (b : Block) (there : Bool) (n : ℕ) → there ≡ false → block_of it b (nulls d there n) ≡ 0
  there_none b there n e = rw e refl

  pub there_lem :
      (b : Block) (there : Bool) (n : ℕ)
      → there ≡ true
      → block_of it b (nulls d there n) ≡ weight it (block b)
  there_lem b there n e = rw e refl

  pub alloc_buffers-Gains :
      (need_mem : Bool) (threads bytes : ℕ) (sys : Sys d)
      → is_null it ≡ false
      → let (err, srcs, dsts, sys') = alloc_buffers d need_mem threads bytes sys in
        Gains sys sys' (of_memory srcs dsts)
  unfolding alloc_buffers
  alloc_buffers-Gains false threads bytes sys e = (omega arith, refl)
  alloc_buffers-Gains true threads bytes sys e =
      let (there, sys₁) = take_block d srcs_block (threads * 8) sys in
      let (there', sys₂) = take_block d dsts_block (threads * 8) sys₁ in
      let g = take_block-Gains srcs_block (threads * 8) threads sys in
      let g' = take_block-Gains dsts_block (threads * 8) threads sys₁ in
      let more = alloc_loop-Gains bytes threads sys₂ e in
      elim (Bool-cases (not there || not there')) [
        | inl f ↦ rw f (
          omega (
            arith,
            g.0,
            g'.0,
            nulls_lem srcs_block there threads e,
            nulls_lem dsts_block there' threads e,
          ),
          omega (arith, g.1, g'.1),
        )
        | inr f ↦
            let t : there ≡ true = ground arith in
            let t' : there' ≡ true = ground arith in
            rw f (
              omega (
                arith,
                g.0,
                g'.0,
                more.0,
                there_lem srcs_block there threads t,
                there_lem dsts_block there' threads t',
              ),
              omega (arith, g.1, g'.1, more.1),
            )
      ]
