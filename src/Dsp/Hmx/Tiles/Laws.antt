-- ===== src/Dsp/Hmx/Tiles/Laws.antt =====
-- Every operand of a tile routine lies in the part of VTCM that is set aside for it.
use cdsp_peak.Base.{
  ℕ, zero, suc, ◌+◌, ◌*◌, ◌≤◌, ◌<◌, ◌≡◌, ◌⊎◌, inl, inr, refl, arith, Option, none, some, List, [],
  ◌∷◌, ◌++◌, All, All-append, Bool-cases, leb,
}
use mathlib.Core.Path.{subst}
use cdsp_peak.Dsp.Hmx.Modes.{HmxMode, ModeConfig, mode_config, hmx_tile_u8_bytes, hmx_bias_bytes}
use cdsp_peak.Dsp.Hmx.Tiles.{
  Instr, mxclracc, mxclracc_hf, bias_mxmem2, activation_ub, activation_ub_cm, activation_ub_deep,
  activation_hf, weight_b, weight_b_deep, weight_hf, weight_n_2x, store_after_sat_ub,
  store_before_retain_sat_ub, store_after_cm_sat_ub, store_after_sat_uh_2x1,
  store_before_retain_sat_uh_2x2, store_after_sat_uh_2x2, store_after_hf, Layout, times, tile,
  store_full, store_2x2, hmx_int8_tile_ub, hmx_int8_tile_cm_ub, hmx_int8_tile_uh,
  hmx_int8_accumulate_ub, hmx_int8_accumulate_ub_wdeep, hmx_int8_accumulate_ub_x16,
  hmx_int8_accumulate_ub_wdeep_x16, hmx_fp16_accumulate_hf, hmx_fp16_accumulate_hf_x16,
  hmx_fp16_tile_hf_x64, hmx_int4_accumulate_ub_wn2x, hmx_int4_accumulate_ub_wn2x_x16,
  hmx_int4_tile_ub_wn2x_full_x64, hmx_int8_tile_ub_adeep32, hmx_int8_tile_ub_x16,
  hmx_int8_tile_ub_full_x16, hmx_int8_tile_ub_full_x32, hmx_int8_tile_ub_full_x64,
  hmx_int8_tile_ub_wdeep_full_x64, hmx_int8_tile_uh2x2_full_x64, hmx_int8_tile_uh_x16,
}

-- The bytes that a store writes at its address: one 32 by 32 tile of bytes or of half words, or, for
-- a 2x2 store, half of the 8192 bytes that the two of them fill.
abbrev pub store_bytes : Instr → ℕ
store_bytes (store_after_sat_ub a) = 1024
store_bytes (store_before_retain_sat_ub a) = 1024
store_bytes (store_after_cm_sat_ub a) = 1024
store_bytes (store_after_sat_uh_2x1 a) = 2048
store_bytes (store_before_retain_sat_uh_2x2 a) = 4096
store_bytes (store_after_sat_uh_2x2 a) = 4096
store_bytes (store_after_hf a) = 2048
store_bytes _ = 0

-- The address of a store.
abbrev pub store_address : Instr → ℕ
store_address (store_after_sat_ub a) = a
store_address (store_before_retain_sat_ub a) = a
store_address (store_after_cm_sat_ub a) = a
store_address (store_after_sat_uh_2x1 a) = a
store_address (store_before_retain_sat_uh_2x2 a) = a
store_address (store_after_sat_uh_2x2 a) = a
store_address (store_after_hf a) = a
store_address _ = 0

-- What `mxmem2` is taken to read: two vectors, the bytes that `hmx_init_fp16_scales` sets.
abbrev pub mxmem2_bytes : ℕ
mxmem2_bytes = 2 * 128

module _ (cfg : ModeConfig) (l : Layout) where
  abbrev InActivation : ℕ → ℕ → Type 0
  InActivation a limit = (a ≡ l.activation) × (limit < cfg.activation_vtcm_len)

  -- The second copy of the weights is one tile of bytes.
  abbrev InWeight : ℕ → ℕ → Type 0
  InWeight a limit =
      ((a ≡ l.weight) × (limit < cfg.weight_vtcm_len))
      ⊎ ((a ≡ l.weight2) × (limit < hmx_tile_u8_bytes))

  -- A load of the bias takes two vectors.
  abbrev InBias : ℕ → Type 0
  InBias a = (a ≡ l.bias) × (mxmem2_bytes ≤ hmx_bias_bytes)

  abbrev InOutput : ℕ → ℕ → Type 0
  InOutput a n = (l.output ≤ a) × (a + n ≤ l.output + cfg.written_len)

  -- The operand lies in its region. `limit` is taken for the offset of the last byte that is read,
  -- also in the forms `:cm` and `weight.n:2x`, whose addressing the repository does not document.
  abbrev pub IsInside : Instr → Type 0
  IsInside mxclracc = Unit {0}
  IsInside mxclracc_hf = Unit {0}
  IsInside (bias_mxmem2 a) = InBias a
  IsInside (activation_ub a limit) = InActivation a limit
  IsInside (activation_ub_cm a limit) = InActivation a limit
  IsInside (activation_ub_deep a limit) = InActivation a limit
  IsInside (activation_hf a limit) = InActivation a limit
  IsInside (weight_b a limit) = InWeight a limit
  IsInside (weight_b_deep a limit) = InWeight a limit
  IsInside (weight_hf a limit) = InWeight a limit
  IsInside (weight_n_2x a limit) = InWeight a limit
  IsInside (store_after_sat_ub a) = InOutput a 1024
  IsInside (store_before_retain_sat_ub a) = InOutput a 1024
  IsInside (store_after_cm_sat_ub a) = InOutput a 1024
  IsInside (store_after_sat_uh_2x1 a) = InOutput a 2048
  IsInside (store_before_retain_sat_uh_2x2 a) = InOutput a 4096
  IsInside (store_after_sat_uh_2x2 a) = InOutput a 4096
  IsInside (store_after_hf a) = InOutput a 2048

module _ {ℓ} (P : Instr → Type ℓ) where
  All-times : (n : ℕ) (is : List Instr) → All P is → All P (times n is)
  All-times zero is h = tt
  All-times (suc n) is h = All-append P is (times n is) h (All-times n is h)

  All-chain :
      (first : Instr) (n : ℕ) (is ends : List Instr)
      → P first
      → All P is
      → All P ends
      → All P ((first ∷ times n is) ++ ends)
  All-chain first n is ends p h e = All-append P (first ∷ times n is) ends (p, All-times n is h) e

module _ (l : Layout) where
  abbrev Within : HmxMode → Instr → Type 0
  Within m = IsInside (mode_config m) l

  abbrev Inside : HmxMode → Option (List Instr) → Type 0
  Inside m none = Unit {0}
  Inside m (some is) = All (Within m) is

  wn2x-Inside :
      (arch : ℕ) → Inside HmxMode.int4_ub_wn2x_full_x64 (hmx_int4_tile_ub_wn2x_full_x64 arch l)
  unfolding hmx_int4_tile_ub_wn2x_full_x64 hmx_int4_accumulate_ub_wn2x_x16
      hmx_int4_accumulate_ub_wn2x mode_config
  wn2x-Inside arch = elim (Bool-cases (leb 73 arch)) [
    | inl new ↦ rw new (
        All-chain (Within HmxMode.int4_ub_wn2x_full_x64) mxclracc 4
          (hmx_int4_accumulate_ub_wn2x_x16 l) (store_full l) tt
          (All-times (Within HmxMode.int4_ub_wn2x_full_x64) 16 (hmx_int4_accumulate_ub_wn2x l)
            (omega arith))
          (omega arith))
    | inr old ↦ rw old tt
  ]

  uh2x2-Inside :
      (arch : ℕ) → Inside HmxMode.int8_uh2x2_full_x64 (hmx_int8_tile_uh2x2_full_x64 arch l)
  unfolding hmx_int8_tile_uh2x2_full_x64 hmx_int8_accumulate_ub_x16 hmx_int8_accumulate_ub
      mode_config
  uh2x2-Inside arch = elim (Bool-cases (leb 69 arch)) [
    | inl new ↦ rw new (
        All-chain (Within HmxMode.int8_uh2x2_full_x64) mxclracc 4 (hmx_int8_accumulate_ub_x16 l)
          (store_2x2 l) tt
          (All-times (Within HmxMode.int8_uh2x2_full_x64) 16 (hmx_int8_accumulate_ub l)
            (omega arith))
          (omega arith))
    | inr old ↦ rw old tt
  ]

  -- `groups` runs of sixteen issues between a clear and the stores
  ub_chain-Inside :
      (m : HmxMode) (groups : ℕ) (ends : List Instr)
      → All (Within m) (hmx_int8_accumulate_ub l)
      → All (Within m) ends
      → All (Within m) ((mxclracc ∷ times groups (hmx_int8_accumulate_ub_x16 l)) ++ ends)
  unfolding hmx_int8_accumulate_ub_x16
  ub_chain-Inside m groups ends h e =
      All-chain (Within m) mxclracc groups _ ends tt (All-times (Within m) 16 _ h) e

  tile-Inside : (arch : ℕ) (m : HmxMode) → Inside m (tile arch m l)
  unfolding tile hmx_int8_tile_ub hmx_int8_tile_cm_ub hmx_int8_tile_uh hmx_int8_accumulate_ub
      hmx_int8_accumulate_ub_wdeep hmx_int8_accumulate_ub_x16 hmx_int8_accumulate_ub_wdeep_x16
      hmx_fp16_accumulate_hf hmx_fp16_accumulate_hf_x16 hmx_fp16_tile_hf_x64
      hmx_int8_tile_ub_adeep32 hmx_int8_tile_ub_x16 hmx_int8_tile_ub_full_x16
      hmx_int8_tile_ub_full_x32 hmx_int8_tile_ub_full_x64 hmx_int8_tile_ub_wdeep_full_x64
      hmx_int8_tile_uh_x16 mode_config
  tile-Inside arch HmxMode.int8_ub = omega arith
  tile-Inside arch HmxMode.int8_cm_ub = omega arith
  tile-Inside arch HmxMode.int8_uh = omega arith
  tile-Inside arch HmxMode.int8_ub_x16 =
      All-chain (Within HmxMode.int8_ub_x16) mxclracc 16 (hmx_int8_accumulate_ub l)
        (store_after_sat_ub l.output ∷ []) tt (omega arith) (omega arith)
  tile-Inside arch HmxMode.int8_uh_x16 =
      All-chain (Within HmxMode.int8_uh_x16) mxclracc 16 (hmx_int8_accumulate_ub l)
        (store_after_sat_uh_2x1 l.output ∷ []) tt (omega arith) (omega arith)
  tile-Inside arch HmxMode.int8_ub_full_x16 =
      All-chain (Within HmxMode.int8_ub_full_x16) mxclracc 16 (hmx_int8_accumulate_ub l)
        (store_full l) tt (omega arith) (omega arith)
  tile-Inside arch HmxMode.int8_ub_full_x32 =
      ub_chain-Inside HmxMode.int8_ub_full_x32 2 (store_full l) (omega arith) (omega arith)
  tile-Inside arch HmxMode.int8_ub_full_x64 =
      ub_chain-Inside HmxMode.int8_ub_full_x64 4 (store_full l) (omega arith) (omega arith)
  tile-Inside arch HmxMode.int8_uh2x2_full_x64 = uh2x2-Inside arch
  tile-Inside arch HmxMode.int8_ub_adeep32 = omega arith
  tile-Inside arch HmxMode.int8_ub_wdeep_full_x64 =
      All-chain (Within HmxMode.int8_ub_wdeep_full_x64) mxclracc 4
        (hmx_int8_accumulate_ub_wdeep_x16 l) (store_full l) tt
        (All-times (Within HmxMode.int8_ub_wdeep_full_x64) 16 (hmx_int8_accumulate_ub_wdeep l)
          (omega arith))
        (omega arith)
  tile-Inside arch HmxMode.fp16_hf_x64 = (
    (refl, omega arith),
    All-chain (Within HmxMode.fp16_hf_x64) mxclracc_hf 4 (hmx_fp16_accumulate_hf_x16 l)
        (store_after_hf l.output ∷ []) tt
        (All-times (Within HmxMode.fp16_hf_x64) 16 (hmx_fp16_accumulate_hf l) (omega arith))
        (omega arith),
  )
  tile-Inside arch HmxMode.int4_ub_wn2x_full_x64 = wn2x-Inside arch
  tile-Inside arch HmxMode.probe_resource = tt
  tile-Inside arch HmxMode.probe_cached = tt
  tile-Inside arch HmxMode.probe_lock = tt

  -- Whatever the architecture and the mode, each instruction of the tile routine loads from the
  -- activation region, one of the two weight regions or the bias region that the mode sets up, from
  -- its first byte and not past its last one, and stores only into the bytes of the output region that
  -- are copied back. Every limit operand is assumed to be the offset of the last byte that is read,
  -- also in the forms `:cm` (0x1c) and `weight.n:2x`, which the repository does not document, and a
  -- load of the bias to read 256 bytes.
  pub tile-IsInside :
      (arch : ℕ) (m : HmxMode) (is : List Instr)
      → tile arch m l ≡ some is
      → All (IsInside (mode_config m) l) is
  tile-IsInside arch m is e = subst (Inside m) e (tile-Inside arch m)
