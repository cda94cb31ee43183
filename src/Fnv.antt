-- ===== src/Fnv.antt =====
-- The 64-bit checksum step that the DSP and the host share: `sum ^= x; sum *= 0x100000001b3`, which
-- stands in `checksum_vector` (dsp/cdsp_peak_imp.c), in `checksum_hmx_output`
-- (dsp/cdsp_peak_hmx.c) and in `mix_checksum` (host/cdsp_peak.c).
pub mod Indexed
use Prim.Native.Nat.{bit_xor}
use cdsp_peak.Base.{
  ℕ, zero, suc, ◌+◌, ◌*◌, ◌%◌, ◌^◌, ◌≤◌, ◌<◌, ◌≡◌, ◌≢◌, refl, ap, arith, u64, List, [], ◌∷◌, length,
}
use cdsp_peak.Bits.{xor_cancel_left, xor_cancel_right, xor-lt}

-- The initial value `0xcbf29ce484222325ULL`.
abbrev pub fnv_basis : ℕ
fnv_basis = 0xcbf29ce484222325

abbrev pub fnv_prime : ℕ
fnv_prime = 0x100000001b3

-- The inverse of the multiplier modulo 2 ^ 64.
abbrev fnv_inverse : ℕ
fnv_inverse = 0xce965057aff6957b

unfoldable pub fnv_step : ℕ → ℕ → ℕ
fnv_step sum x = u64 (bit_xor sum x * fnv_prime)

pub fnv_step-lt : (sum x : ℕ) → fnv_step sum x < 2 ^ 64
unfolding fnv_step
fnv_step-lt sum x = omega arith

undo_prime : (a : ℕ) → a < 2 ^ 64 → u64 (u64 (a * fnv_prime) * fnv_inverse) ≡ a
undo_prime a h = omega arith

-- Multiplication by the odd prime loses nothing.
mul-prime_inj :
    (a b : ℕ) → a < 2 ^ 64 → b < 2 ^ 64 → u64 (a * fnv_prime) ≡ u64 (b * fnv_prime) → a ≡ b
mul-prime_inj a b ha hb e =
    omega (arith, undo_prime a ha, undo_prime b hb, ap (λ (t : ℕ). u64 (t * fnv_inverse)) e)

pub fnv_step-inj_sum :
    (s t x : ℕ) → s < 2 ^ 64 → t < 2 ^ 64 → x < 2 ^ 64 → fnv_step s x ≡ fnv_step t x → s ≡ t
unfolding fnv_step
fnv_step-inj_sum s t x hs ht hx e =
    xor_cancel_right x s t (mul-prime_inj _ _ (xor-lt 64 s x hs hx) (xor-lt 64 t x ht hx) e)

pub fnv_step-inj_word :
    (s x y : ℕ) → s < 2 ^ 64 → x < 2 ^ 64 → y < 2 ^ 64 → fnv_step s x ≡ fnv_step s y → x ≡ y
unfolding fnv_step
fnv_step-inj_word s x y hs hx hy e =
    xor_cancel_left s x y (mul-prime_inj _ _ (xor-lt 64 s x hs hx) (xor-lt 64 s y hs hy) e)
