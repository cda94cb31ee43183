-- ===== src/Host/Buffers/Tests.antt =====
-- Small buffers.
use cdsp_peak.Base.{ℕ, ◌*◌, ◌≡◌, refl, arith, false, List, [], ◌∷◌, replicate}
use cdsp_peak.Host.Buffers.{
  fill_from, fill_source, fill_hmx_fp16_tile, fill_hmx_inputs, verify_copy,
}
use cdsp_peak.Host.Buffers.Laws.{verify_copy_detects, replicate_differs}

first_bytes : fill_source 3 ≡ 17 ∷ 148 ∷ 23 ∷ []
unfolding fill_source fill_from
first_bytes = refl

-- 1.0 as a half, twice
ones : (fill_hmx_inputs 18 (9 ∷ 9 ∷ 9 ∷ 9 ∷ []) [] (9 ∷ [])).0 ≡ 0 ∷ 60 ∷ 0 ∷ 60 ∷ []
unfolding fill_hmx_inputs fill_hmx_fp16_tile
ones = refl

-- A block of fives is not a block of zeros.
abbrev fives : List ℕ
fives = replicate 4096 5

abbrev zeros : List ℕ
zeros = replicate 4096 0

verify_copy_detects_example : verify_copy fives zeros (1 * 4096) ≡ false
verify_copy_detects_example =
    verify_copy_detects fives zeros 1 7 (omega arith) (omega arith)
      (λ j h r. replicate_differs 4096 5 0 j (omega arith) h)
