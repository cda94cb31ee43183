-- ===== src/Dsp/Kernels/Tests.antt =====
-- The kernels on a vector unit whose vectors hold one word 32 times.
use cdsp_peak.Base.{
  ℕ, zero, suc, ◌+◌, ◌*◌, ◌%◌, ◌/◌, ◌^◌, ◌<◌, ◌≡◌, ◌≢◌, ◌⊎◌, refl, sym, ap, ap₂, ◌∙◌, arith, true,
  false, none, some, List, [], ◌∷◌, replicate, length, length-replicate, All, u32,
}
use mathlib.Core.Path.{subst}
use cdsp_peak.Base.Int.{pos, not_positive}
use cdsp_peak.Aee.{AeeCodes, aee_success}
use cdsp_peak.Dsp.Hvx.{Hvx, FusesAdd, add_words, le_words}
use cdsp_peak.Dsp.Kernels.{State, int8_a, int8_b, decode_kernel, checksum_vector, bench_compute}
use cdsp_peak.Dsp.Kernels.Laws.{checksum_vector_detects, bench_compute_lem, Measures}
use cdsp_peak.Dsp.Kernels.Int8.{
  AddsWords, IsMultiple, accumulated, bench_compute-int8, int8_add_step-IsMultiple,
}

abbrev codes : AeeCodes
codes = record {
  ebadparm = pos 14;
  eunsupported = pos 20;
  enomemory = pos 2;
  efailed = pos 1;
  ebadparm_error = refl;
  eunsupported_error = refl;
  enomemory_error = refl;
  efailed_error = refl;
}

-- The bytes of `n` copies of a word.
abbrev spread : ℕ → ℕ → List ℕ
spread zero w = []
spread (suc n) w =
    (w % 256) ∷ (w / 256 % 256) ∷ (w / 65536 % 256) ∷ (w / 16777216 % 256) ∷ spread n w

abbrev one_word : Hvx
one_word = record {
  Vec = ℕ;
  store = spread 32;
  load = λ bs. 0;
  splat = λ w. w;
  vzero = 0;
  vadd_w = λ a b. u32 (a + b);
  vmpy_sf = λ a b. u32 (a * b);
  vadd_sf = λ a b. u32 (a + b);
  vmpyacc_hf = λ acc a b. u32 (acc + a * b);
  vmpy_qf16 = λ a b. u32 (a * b);
  vadd_qf16 = λ a b. u32 (a + b);
  vmpy_qf32 = λ a b. u32 (a * b);
  vadd_qf32 = λ a b. u32 (a + b);
  vrmpyacc = λ acc a b. u32 (acc + u32 (a * b));
  vrmpy = λ a b. u32 (a * b);
}

word_of_bytes :
    (w : ℕ)
    → w % 256 + w / 256 % 256 * 2 ^ 8 + w / 65536 % 256 * 2 ^ 16 + w / 16777216 % 256 * 2 ^ 24
      ≡ u32 w
word_of_bytes w = omega arith

le_words-spread : (n w : ℕ) → le_words (spread n w) ≡ replicate n (u32 w)
le_words-spread zero w = refl
le_words-spread (suc n) w = ap₂ ◌∷◌ (word_of_bytes w) (le_words-spread n w)

add_words-replicate :
    (n x y z : ℕ) → u32 (x + y) ≡ z → replicate n z ≡ add_words (replicate n x) (replicate n y)
add_words-replicate zero x y z e = refl
add_words-replicate (suc n) x y z e = ap₂ ◌∷◌ (sym e) (add_words-replicate n x y z e)

replicate-All : (n w : ℕ) → w < 2 ^ 32 → All (λ x. x < 2 ^ 32) (replicate n w)
replicate-All zero w h = _
replicate-All (suc n) w h = (h, replicate-All n w h)

word_sum : (x y : ℕ) → u32 (u32 x + u32 y) ≡ u32 (u32 (x + y))
word_sum x y = omega arith

one_word-AddsWords : AddsWords one_word
one_word-AddsWords = record {
  words-zero = le_words-spread 32 0;
  words-add = λ x y.
      le_words-spread 32 (u32 (x + y))
      ∙ add_words-replicate 32 (u32 x) (u32 y) (u32 (u32 (x + y))) (word_sum x y)
      ∙ ap₂ add_words (sym (le_words-spread 32 x)) (sym (le_words-spread 32 y));
  length-words = λ x. ap length (le_words-spread 32 x) ∙ length-replicate 32 (u32 x);
  words-lt = λ x.
      subst (All (λ w. w < 2 ^ 32)) (sym (le_words-spread 32 x))
        (replicate-All 32 (u32 x) (omega arith));
}

one_word-FusesAdd : FusesAdd one_word
one_word-FusesAdd acc a b = refl

abbrev ticks : ℕ → ℕ
ticks i = i * 10

abbrev fresh : State codes one_word ticks 79
fresh = record { timer_overhead = 4; sink = 0; reads = 0 }

bench_compute-int8_example :
    bench_compute codes one_word ticks 79 (pos 2) (pos 5) fresh
    ≡ bench_compute codes one_word ticks 79 (pos 3) (pos 5) fresh
bench_compute-int8_example =
    bench_compute-int8 codes one_word ticks 79 one_word-FusesAdd (pos 5) fresh

int8_add_step-IsMultiple_example :
    let acc = accumulated one_word one_word-AddsWords codes ticks 79 5 in
    let IsProduct = IsMultiple one_word one_word-AddsWords codes ticks 79 5 in
    IsProduct acc.l0 int8_a.l0 int8_b.l0
    × IsProduct acc.l1 int8_a.l1 int8_b.l1
    × IsProduct acc.l2 int8_a.l2 int8_b.l2
    × IsProduct acc.l3 int8_a.l3 int8_b.l3
    × IsProduct acc.l4 int8_a.l4 int8_b.l4
    × IsProduct acc.l5 int8_a.l5 int8_b.l5
    × IsProduct acc.l6 int8_a.l6 int8_b.l6
    × IsProduct acc.l7 int8_a.l7 int8_b.l7
int8_add_step-IsMultiple_example =
    int8_add_step-IsMultiple one_word one_word-AddsWords codes ticks 79 5

bench_compute_lem_example :
    let (ret, outs, s') = bench_compute codes one_word ticks 79 (pos 2) (pos 5) fresh in
    (((not_positive (pos 5) ≡ true) ⊎ (decode_kernel (pos 2) ≡ none))
      × (ret ≡ pos 14)
      × (outs ≡ none)
      × (s' ≡ fresh))
    ⊎ ((not_positive (pos 5) ≡ false)
        × (decode_kernel (pos 2) ≢ none)
        × (ret ≡ aee_success)
        × ((o : ℕ × ℕ) × (outs ≡ some o) × Measures codes one_word ticks 79 fresh o s'))
bench_compute_lem_example = bench_compute_lem codes one_word ticks 79 (pos 2) (pos 5) fresh

-- The word stands in the first place only.
abbrev first_word : Hvx
first_word = record one_word {
  store = λ w. (w % 256) ∷ (w / 256 % 256) ∷ (w / 65536 % 256) ∷ (w / 16777216 % 256) ∷ spread 31 0;
}

checksum_vector_detects_example :
    checksum_vector codes first_word ticks 79 1 ≢ checksum_vector codes first_word ticks 79 2
checksum_vector_detects_example =
    checksum_vector_detects codes first_word ticks 79 1 2 [] 1 2 (replicate 31 0) refl refl
      (omega arith) (omega arith) (omega arith)
