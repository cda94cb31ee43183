-- ===== src/Base/Int.antt =====
-- C's `int` and `long` as signed integers over the native numbers.
use Prim.Native.Nat.{ℕ, zero, suc, ◌-◌, ◌%◌, ◌^◌}
use mathlib.Core.Bool.{Bool, true, false}
use cdsp_peak.Base.Tests.{ltb, ◌==◌, if◌then◌else◌}

-- `negsuc n` is -(n + 1).
pub data ℤ : Type 0 where
  pos : ℕ → ℤ
  negsuc : ℕ → ℤ

-- `x <= 0`
abbrev pub not_positive : ℤ → Bool
not_positive (pos n) = n == 0
not_positive (negsuc n) = true

-- `x != 0`, a C condition
abbrev pub nonzero : ℤ → Bool
nonzero (pos zero) = false
nonzero (pos (suc n)) = true
nonzero (negsuc n) = true

-- `x < n` for a value `n` that is not negative
abbrev pub ltb_ℤ : ℤ → ℕ → Bool
ltb_ℤ (pos m) n = ltb m n
ltb_ℤ (negsuc m) n = true

-- the magnitude of a value that is not negative; 0 for the others
abbrev pub to_ℕ : ℤ → ℕ
to_ℕ (pos n) = n
to_ℕ (negsuc n) = 0

-- The 32-bit pattern of a value, as a conversion to `uint32_t` gives it.
abbrev pub bits32 : ℤ → ℕ
bits32 (pos n) = n % 2 ^ 32
bits32 (negsuc n) = 2 ^ 32 - 1 - n % 2 ^ 32

-- The `int` of a 32-bit pattern, as a conversion from a wider type gives it.
abbrev pub signed32 : ℕ → ℤ
signed32 w = if ltb w (2 ^ 31) then pos w else negsuc (2 ^ 32 - 1 - w)

-- `(int)x`
abbrev pub to_int : ℤ → ℤ
to_int x = signed32 (bits32 x)

-- `x == 0` has a unique solution.
abbrev pub is_zero : ℤ → Bool
is_zero (pos n) = n == 0
is_zero (negsuc n) = false
