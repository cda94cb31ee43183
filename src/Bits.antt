-- ===== src/Bits.antt =====
-- `^` on native numbers at variables: the digit recursion, cancellation and width. The checksums of
-- dsp/ and host/ fold their input by it.
use Prim.Native.Nat.{bit_xor, digits, differ, bit_xor-bitwise}
use native.Mathlib.Nat.{pow-suc}
use cdsp_peak.Base.{ℕ, zero, suc, ◌+◌, ◌*◌, ◌/◌, ◌%◌, ◌^◌, ◌≤◌, ◌<◌, ◌≡◌, refl, arith}

abbrev xor_digits : ℕ → ℕ → ℕ → ℕ
xor_digits n a b = digits (λ b. b) differ n a b

xor_digits_fuel : (n m a b : ℕ) → a ≤ n → a ≤ m → xor_digits n a b ≡ xor_digits m a b
xor_digits_fuel zero zero a b p q = refl
xor_digits_fuel zero (suc m) zero b p q = refl
xor_digits_fuel zero (suc m) (suc a) b p q = absurd (omega arith)
xor_digits_fuel (suc n) zero zero b p q = refl
xor_digits_fuel (suc n) zero (suc a) b p q = absurd (omega arith)
xor_digits_fuel (suc n) (suc m) zero b p q = refl
xor_digits_fuel (suc n) (suc m) (suc a) b p q =
    rw (xor_digits_fuel n m (suc a / 2) (b / 2) (omega arith) (omega arith))

zero-bit_xor : (b : ℕ) → bit_xor 0 b ≡ b
zero-bit_xor b = bit_xor-bitwise 0 b

differ_bits : (x y : ℕ) → x < 2 → y < 2 → differ x y ≡ (x + y) % 2
differ_bits zero y p q = omega arith
differ_bits (suc x) zero p q = omega arith
differ_bits (suc zero) (suc zero) p q = refl
differ_bits (suc (suc x)) (suc y) p q = absurd (omega arith)
differ_bits (suc zero) (suc (suc y)) p q = absurd (omega arith)

differ-mod : (a b : ℕ) → differ (a % 2) (b % 2) ≡ (a % 2 + b % 2) % 2
differ-mod a b = differ_bits (a % 2) (b % 2) (omega arith) (omega arith)

pub bit_xor_step : (a b : ℕ) → bit_xor a b ≡ bit_xor (a / 2) (b / 2) * 2 + (a % 2 + b % 2) % 2
bit_xor_step zero b = omega (arith, zero-bit_xor b, zero-bit_xor (b / 2))
bit_xor_step (suc a) b = omega (
  arith,
  bit_xor-bitwise (suc a) b,
  bit_xor-bitwise (suc a / 2) (b / 2),
  xor_digits_fuel a (suc a / 2) (suc a / 2) (b / 2) (omega arith) (omega arith),
  differ-mod (suc a) b,
)

-- Two words with one `^` in common are the same.
xor_cancel_fuel : (n a b c : ℕ) → a ≤ n → b ≤ n → bit_xor c a ≡ bit_xor c b → a ≡ b
xor_cancel_fuel zero a b c p q h = omega arith
xor_cancel_fuel (suc n) a b c p q h = omega (
  arith,
  bit_xor_step c a,
  bit_xor_step c b,
  xor_cancel_fuel n (a / 2) (b / 2) (c / 2) (omega arith) (omega arith)
      (omega (arith, bit_xor_step c a, bit_xor_step c b)),
)

pub xor_cancel_left : (c a b : ℕ) → bit_xor c a ≡ bit_xor c b → a ≡ b
xor_cancel_left c a b h = xor_cancel_fuel (a + b) a b c (omega arith) (omega arith) h

xor_cancel_right_fuel : (n a b c : ℕ) → a ≤ n → b ≤ n → bit_xor a c ≡ bit_xor b c → a ≡ b
xor_cancel_right_fuel zero a b c p q h = omega arith
xor_cancel_right_fuel (suc n) a b c p q h = omega (
  arith,
  bit_xor_step a c,
  bit_xor_step b c,
  xor_cancel_right_fuel n (a / 2) (b / 2) (c / 2) (omega arith) (omega arith)
      (omega (arith, bit_xor_step a c, bit_xor_step b c)),
)

pub xor_cancel_right : (c a b : ℕ) → bit_xor a c ≡ bit_xor b c → a ≡ b
xor_cancel_right c a b h = xor_cancel_right_fuel (a + b) a b c (omega arith) (omega arith) h

-- `^` needs no more bits than its operands.
pub xor-lt : (k a b : ℕ) → a < 2 ^ k → b < 2 ^ k → bit_xor a b < 2 ^ k
xor-lt zero zero b p q = omega (arith, zero-bit_xor b)
xor-lt zero (suc a) b p q = absurd (omega arith)
xor-lt (suc k) a b p q = omega (
  arith,
  bit_xor_step a b,
  pow-suc 2 k,
  xor-lt k (a / 2) (b / 2) (omega (arith, pow-suc 2 k)) (omega (arith, pow-suc 2 k)),
)
