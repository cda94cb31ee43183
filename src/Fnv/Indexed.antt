-- ===== src/Fnv/Indexed.antt =====
-- The loop that `checksum_vector` (dsp/cdsp_peak_imp.c) and `checksum_hmx_output`
-- (dsp/cdsp_peak_hmx.c) run over their words or bytes: each is mixed in with its index in the upper
-- half of the 64-bit word.
use cdsp_peak.Base.{ℕ, ◌+◌, ◌*◌, ◌^◌, ◌<◌, ◌≡◌, ◌≢◌, arith, u64, List, [], ◌∷◌, ◌++◌}
use cdsp_peak.Fnv.{fnv_step, fnv_step-lt, fnv_step-inj_sum, fnv_step-inj_word}

-- `(uint64_t)data[i] + ((uint64_t)i << 32)`
abbrev pub indexed_word : ℕ → ℕ → ℕ
indexed_word i x = u64 (x + u64 (i * 2 ^ 32))

-- The rounds from index `i` on.
unfoldable pub mix_from : ℕ → ℕ → List ℕ → ℕ
mix_from i sum [] = sum
mix_from i sum (x ∷ xs) = mix_from (i + 1) (fnv_step sum (indexed_word i x)) xs

pub mix_from-lt : (i sum : ℕ) (xs : List ℕ) → sum < 2 ^ 64 → mix_from i sum xs < 2 ^ 64
unfolding mix_from
mix_from-lt i sum [] h = h
mix_from-lt i sum (x ∷ xs) h = mix_from-lt (i + 1) _ xs (fnv_step-lt sum (indexed_word i x))

-- Different states stay different, whatever is mixed in afterwards.
mix_from-inj_sum :
    (i s t : ℕ) (xs : List ℕ) → s < 2 ^ 64 → t < 2 ^ 64 → mix_from i s xs ≡ mix_from i t xs → s ≡ t
unfolding mix_from
mix_from-inj_sum i s t [] hs ht e = e
mix_from-inj_sum i s t (x ∷ xs) hs ht e =
    fnv_step-inj_sum s t (indexed_word i x) hs ht (omega arith)
      (mix_from-inj_sum (i + 1) _ _ xs (fnv_step-lt s _) (fnv_step-lt t _) e)

-- Two runs over data that differ in one place end in different states.
pub mix_from_detects :
    (i sum : ℕ) (pre : List ℕ) (x y : ℕ) (rest : List ℕ)
    → sum < 2 ^ 64
    → x < 2 ^ 32
    → y < 2 ^ 32
    → x ≢ y
    → mix_from i sum (pre ++ (x ∷ rest)) ≢ mix_from i sum (pre ++ (y ∷ rest))
unfolding mix_from
mix_from_detects i sum [] x y rest hs hx hy ne e =
    let step =
      mix_from-inj_sum (i + 1) _ _ rest (fnv_step-lt sum _) (fnv_step-lt sum (indexed_word i y))
        e in
    let same =
      fnv_step-inj_word sum (indexed_word i x) (indexed_word i y) hs (omega arith) (omega arith)
        step in
    ne (omega (arith, same))
mix_from_detects i sum (p ∷ pre) x y rest hs hx hy ne e =
    mix_from_detects (i + 1) _ pre x y rest (fnv_step-lt sum (indexed_word i p)) hx hy ne e
