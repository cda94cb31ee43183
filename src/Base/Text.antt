-- ===== src/Base/Text.antt =====
-- C strings as the lists of their bytes, without the zero at the end.
use Prim.Native.Nat.{ℕ}
use Prim.Native.Char.{code}
use Prim.Native.String.{String}
use mathlib.Core.Path.{◌≡◌, refl, ap₂}
use mathlib.Core.Bool.{Bool, true, false, ◌&&◌}
use mathlib.Core.List.{List, [], ◌∷◌}
use native.Mathlib.Omega.{arith}
use cdsp_peak.Base.Tests.{◌==◌}
use cdsp_peak.Base.Lists.{length}

abbrev pub codes : String → List ℕ
codes String.[] = []
codes (String.◌∷◌ c s) = code c ∷ codes s

-- `!strcmp(a, b)`
unfoldable pub same_text : List ℕ → List ℕ → Bool
same_text [] [] = true
same_text [] (y ∷ ys) = false
same_text (x ∷ xs) [] = false
same_text (x ∷ xs) (y ∷ ys) = (x == y) && same_text xs ys

pub same_text→eq : (a b : List ℕ) → same_text a b ≡ true → a ≡ b
unfolding same_text
same_text→eq [] [] h = refl
same_text→eq [] (y ∷ ys) h = absurd (cc)
same_text→eq (x ∷ xs) [] h = absurd (cc)
same_text→eq (x ∷ xs) (y ∷ ys) h = ap₂ ◌∷◌ (ground arith) (same_text→eq xs ys (ground arith))

pub same_text_refl : (a : List ℕ) → same_text a a ≡ true
unfolding same_text
same_text_refl [] = refl
same_text_refl (x ∷ xs) = ground (arith, same_text_refl xs)

-- The test of the lengths before `strncmp` adds nothing.
pub length-same_text : (a b : List ℕ) → ((length a == length b) && same_text a b) ≡ same_text a b
unfolding same_text
length-same_text [] [] = refl
length-same_text [] (y ∷ ys) = ground arith
length-same_text (x ∷ xs) [] = ground arith
length-same_text (x ∷ xs) (y ∷ ys) = ground (arith, length-same_text xs ys)

pub same_text_cons : (c : ℕ) (cs : List ℕ) → same_text [] (c ∷ cs) ≡ false
unfolding same_text
same_text_cons c cs = refl
