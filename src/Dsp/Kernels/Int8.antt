-- ===== src/Dsp/Kernels/Int8.antt =====
-- The two int8 kernels: one accumulates by a fused instruction, the other by a multiplication and an
-- addition.
use cdsp_peak.Base.{
  ℕ, zero, suc, ◌+◌, ◌*◌, ◌^◌, ◌≡◌, refl, ap, ap₂, ◌∙◌, arith, Option, none, some, List, [], ◌∷◌,
  map, replicate, length, All, sym, ◌<◌, u32, if◌then◌else◌,
}
use mathlib.Core.Path.{fun_ext}
use cdsp_peak.Base.Int.{ℤ, pos, not_positive, to_ℕ}
use cdsp_peak.Aee.{AeeCodes, aee_success}
use cdsp_peak.Dsp.Hvx.{Hvx, FusesAdd, words, add_words}
use cdsp_peak.Dsp.Kernels.{
  Lanes, lanes, iterate, State, int8_step, int8_add_step, timed_loop, run_kernel,
  run_int8_fixed_kernel, run_int8_add_fixed_kernel, bench_compute, int8_a, int8_b, zero_lanes,
}

module _ (codes : AeeCodes) (v : Hvx) (clock : ℕ → ℕ) (arch : ℕ) (fuses : FusesAdd v) where
  int8_step-eq-add :
      (acc : Lanes v.Vec) → int8_step codes v clock arch acc ≡ int8_add_step codes v clock arch acc
  int8_step-eq-add acc = λ i.
      lanes (fuses acc.l0 (v.splat int8_a.l0) (v.splat int8_b.l0) i)
        (fuses acc.l1 (v.splat int8_a.l1) (v.splat int8_b.l1) i)
        (fuses acc.l2 (v.splat int8_a.l2) (v.splat int8_b.l2) i)
        (fuses acc.l3 (v.splat int8_a.l3) (v.splat int8_b.l3) i)
        (fuses acc.l4 (v.splat int8_a.l4) (v.splat int8_b.l4) i)
        (fuses acc.l5 (v.splat int8_a.l5) (v.splat int8_b.l5) i)
        (fuses acc.l6 (v.splat int8_a.l6) (v.splat int8_b.l6) i)
        (fuses acc.l7 (v.splat int8_a.l7) (v.splat int8_b.l7) i)

  -- Where the fused instruction is the multiplication followed by the addition, the two int8 kernels
  -- (numbers 2 and 3) return the same code and the same checksum for any number of iterations, leave
  -- the same state, and take the same cycles at the same counter values.
  pub bench_compute-int8 :
      (iterations : ℤ) (s : State codes v clock arch)
      → bench_compute codes v clock arch (pos 2) iterations s
        ≡ bench_compute codes v clock arch (pos 3) iterations s
  unfolding bench_compute run_kernel run_int8_fixed_kernel run_int8_add_fixed_kernel timed_loop
  bench_compute-int8 iterations s =
      ap
        (λ (step : Lanes v.Vec → Lanes v.Vec).
          let r =
            timed_loop codes v clock arch (to_ℕ iterations) step (zero_lanes codes v clock arch)
              s in
          let answer : ℤ × Option (ℕ × ℕ) × State codes v clock arch =
            if not_positive iterations
            then (codes.ebadparm, none, s)
            else (aee_success, some r.0, r.1) in
          answer)
        (fun_ext int8_step-eq-add)

-- `n` times the word, added to a word, without carry out of 32 bits.
abbrev add_scaled : ℕ → List ℕ → List ℕ → List ℕ
add_scaled n (x ∷ xs) (y ∷ ys) = u32 (x + n * y) ∷ add_scaled n xs ys
add_scaled n _ _ = []

add_scaled-suc :
    (n : ℕ) (xs ps : List ℕ) → add_scaled n (add_words xs ps) ps ≡ add_scaled (suc n) xs ps
add_scaled-suc n [] ps = refl
add_scaled-suc n (x ∷ xs) [] = refl
add_scaled-suc n (x ∷ xs) (p ∷ ps) =
    ap₂ ◌∷◌ (let e : u32 (u32 (x + p) + n * p) ≡ u32 (x + suc n * p) = omega arith in e)
      (add_scaled-suc n xs ps)

add_scaled_zeros :
    (n : ℕ) (ps : List ℕ) → add_scaled n (replicate (length ps) 0) ps ≡ map (λ w. u32 (n * w)) ps
add_scaled_zeros n [] = refl
add_scaled_zeros n (p ∷ ps) =
    ap₂ ◌∷◌ (let e : u32 (0 + n * p) ≡ u32 (n * p) = omega arith in e) (add_scaled_zeros n ps)

add_scaled_zero :
    (xs ps : List ℕ) → length xs ≡ length ps → All (λ w. w < 2 ^ 32) xs → add_scaled 0 xs ps ≡ xs
add_scaled_zero [] ps e h = refl
add_scaled_zero (x ∷ xs) [] e h = absurd (omega arith)
add_scaled_zero (x ∷ xs) (p ∷ ps) e h =
    ap₂ ◌∷◌ (let bound = h.0 in let e : u32 (x + 0 * p) ≡ x = omega arith in e)
      (add_scaled_zero xs ps (omega arith) h.1)

iterate-map {ℓ κ} :
    {S : Type ℓ} {T : Type κ} (n : ℕ) (f : S → T) (step : S → S) (step' : T → T) (s : S)
    → ((x : S) → f (step x) ≡ step' (f x))
    → f (iterate n step s) ≡ iterate n step' (f s)
unfolding iterate
iterate-map zero f step step' s h = refl
iterate-map (suc n) f step step' s h =
    iterate-map n f step step' (step s) h ∙ ap (iterate n step') (h s)

-- What is used of the addition of words, and of a vector's size.
pub record AddsWords (v : Hvx) : Type 0 where
  pub words-zero : words v v.vzero ≡ replicate 32 0
  pub words-add : (x y : v.Vec) → words v (v.vadd_w x y) ≡ add_words (words v x) (words v y)
  pub length-words : (x : v.Vec) → length (words v x) ≡ 32
  pub words-lt : (x : v.Vec) → All (λ w. w < 2 ^ 32) (words v x)

module _ (v : Hvx) (adds : AddsWords v) where
  words-iterate :
      (n : ℕ) (x p : v.Vec)
      → words v (iterate n (λ y. v.vadd_w y p) x) ≡ add_scaled n (words v x) (words v p)
  unfolding iterate
  words-iterate zero x p = sym (
      add_scaled_zero (words v x) (words v p) (adds.length-words x ∙ sym (adds.length-words p))
        (adds.words-lt x))
  words-iterate (suc n) x p =
      words-iterate n (v.vadd_w x p) p
      ∙ ap (λ t. add_scaled n t (words v p)) (adds.words-add x p)
      ∙ add_scaled-suc n (words v x) (words v p)

  -- `n` rounds of one lane from zero: word by word `n` times the product, modulo 2 ^ 32.
  lane_lem :
      (n : ℕ) (p : v.Vec)
      → words v (iterate n (λ y. v.vadd_w y p) v.vzero) ≡ map (λ w. u32 (n * w)) (words v p)
  lane_lem n p =
      words-iterate n v.vzero p
      ∙ ap (λ t. add_scaled n t (words v p))
          (adds.words-zero ∙ ap (λ k. replicate k 0) (sym (adds.length-words p)))
      ∙ add_scaled_zeros n (words v p)

  module _ (codes : AeeCodes) (clock : ℕ → ℕ) (arch n : ℕ) where
    abbrev pub accumulated : Lanes v.Vec
    accumulated = iterate n (int8_add_step codes v clock arch) (zero_lanes codes v clock arch)

    -- The accumulator `acc` has in each word `n` times that of the product of the splatted `a` and `b`.
    abbrev pub IsMultiple : v.Vec → ℕ → ℕ → Type 0
    IsMultiple acc a b =
        words v acc ≡ map (λ w. u32 (n * w)) (words v (v.vrmpy (v.splat a) (v.splat b)))

    lane :
        (pick : Lanes v.Vec → v.Vec) (a b : ℕ)
        → ((acc : Lanes v.Vec)
            → pick (int8_add_step codes v clock arch acc)
              ≡ v.vadd_w (pick acc) (v.vrmpy (v.splat a) (v.splat b)))
        → pick (zero_lanes codes v clock arch) ≡ v.vzero
        → IsMultiple (pick accumulated) a b
    lane pick a b h z =
        let p = v.vrmpy (v.splat a) (v.splat b) in
        ap (words v) (
          iterate-map n pick (int8_add_step codes v clock arch) (λ y. v.vadd_w y p)
            (zero_lanes codes v clock arch) h
          ∙ ap (iterate n (λ y. v.vadd_w y p)) z)
        ∙ lane_lem n p

    -- After `n` rounds of the int8 kernel from zero, each word of each of the eight accumulators is
    -- `n` times the word of the product of its two constants, modulo 2 ^ 32.
    pub int8_add_step-IsMultiple :
        IsMultiple accumulated.l0 int8_a.l0 int8_b.l0
        × IsMultiple accumulated.l1 int8_a.l1 int8_b.l1
        × IsMultiple accumulated.l2 int8_a.l2 int8_b.l2
        × IsMultiple accumulated.l3 int8_a.l3 int8_b.l3
        × IsMultiple accumulated.l4 int8_a.l4 int8_b.l4
        × IsMultiple accumulated.l5 int8_a.l5 int8_b.l5
        × IsMultiple accumulated.l6 int8_a.l6 int8_b.l6
        × IsMultiple accumulated.l7 int8_a.l7 int8_b.l7
    int8_add_step-IsMultiple = (
      lane (λ l. l.l0) _ _ (λ acc. refl) refl,
      lane (λ l. l.l1) _ _ (λ acc. refl) refl,
      lane (λ l. l.l2) _ _ (λ acc. refl) refl,
      lane (λ l. l.l3) _ _ (λ acc. refl) refl,
      lane (λ l. l.l4) _ _ (λ acc. refl) refl,
      lane (λ l. l.l5) _ _ (λ acc. refl) refl,
      lane (λ l. l.l6) _ _ (λ acc. refl) refl,
      lane (λ l. l.l7) _ _ (λ acc. refl) refl,
    )
