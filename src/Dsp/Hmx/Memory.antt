-- ===== src/Dsp/Hmx/Memory.antt =====
-- The DSP's memory as bytes by address, for `memcpy` and `memset` on VTCM.
use cdsp_peak.Base.{
  ℕ, zero, suc, ◌+◌, ◌-◌, ◌≤◌, ◌<◌, ◌≡◌, ◌⊎◌, refl, ap, arith, ◌&&◌, List, [], ◌∷◌, length, get_or,
  ltb, leb, if◌then◌else◌,
}

abbrev pub Memory : Type 0
Memory = ℕ → ℕ

-- `memcpy(address, bytes, length)`
unfoldable pub write_block : ℕ → List ℕ → Memory → Memory
write_block address bytes m = λ p.
    if leb address p && ltb p (address + length bytes) then get_or bytes (p - address) 0 else m p

-- The `n` bytes from an address on.
unfoldable pub read_block : Memory → ℕ → ℕ → List ℕ
read_block m address zero = []
read_block m address (suc n) = m address ∷ read_block m (address + 1) n

-- `p` is none of the `n` bytes from `a` on.
abbrev pub Outside : ℕ → ℕ → ℕ → Type 0
Outside a n p = (p < a) ⊎ (a + n ≤ p)

-- The two memories agree but for the `n` bytes from `a` on.
abbrev pub SameOutside : ℕ → ℕ → Memory → Memory → Type 0
SameOutside a n m m' = (p : ℕ) → Outside a n p → m' p ≡ m p

pub write_block-SameOutside :
    (a n address : ℕ) (bytes : List ℕ) (m : Memory)
    → a ≤ address
    → address + length bytes ≤ a + n
    → SameOutside a n m (write_block address bytes m)
unfolding write_block
write_block-SameOutside a n address bytes m lo hi p out = ground arith

pub length-read_block : (m : Memory) (address n : ℕ) → length (read_block m address n) ≡ n
unfolding read_block
length-read_block m address zero = refl
length-read_block m address (suc n) = ap suc (length-read_block m (address + 1) n)
