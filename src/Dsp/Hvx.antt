-- ===== src/Dsp/Hvx.antt =====
-- The HVX vector unit, through the intrinsics (`Q6_*`, of the Hexagon tools) that
-- dsp/cdsp_peak_imp.c calls: a parameter of the model, with the laws that are used of it.
use cdsp_peak.Base.{ℕ, ◌+◌, ◌*◌, ◌^◌, ◌≡◌, List, [], ◌∷◌, length, u32}

-- `sizeof(HVX_Vector)`
abbrev pub vector_bytes : ℕ
vector_bytes = 128

pub record Hvx : Type 1 where
  pub Vec : Type 0
  -- A vector's bytes in memory, and the vector that bytes in memory make.
  pub store : Vec → List ℕ
  pub load : List ℕ → Vec
  -- `Q6_V_vsplat_R`, `Q6_V_vzero`, `Q6_Vw_vadd_VwVw`
  pub splat : ℕ → Vec
  pub vzero : Vec
  pub vadd_w : Vec → Vec → Vec
  -- `Q6_Vsf_vmpy_VsfVsf`, `Q6_Vsf_vadd_VsfVsf`, `Q6_Vhf_vmpyacc_VhfVhfVhf`
  pub vmpy_sf : Vec → Vec → Vec
  pub vadd_sf : Vec → Vec → Vec
  pub vmpyacc_hf : Vec → Vec → Vec → Vec
  -- `Q6_Vqf16_vmpy_VhfVhf`, `Q6_Vqf16_vadd_Vqf16Vqf16`, `Q6_Vqf32_vmpy_VsfVsf`, `Q6_Vqf32_vadd_Vqf32Vqf32`
  pub vmpy_qf16 : Vec → Vec → Vec
  pub vadd_qf16 : Vec → Vec → Vec
  pub vmpy_qf32 : Vec → Vec → Vec
  pub vadd_qf32 : Vec → Vec → Vec
  -- `Q6_Vw_vrmpyacc_VwVubVb`, `Q6_Vw_vrmpy_VubVb`
  pub vrmpyacc : Vec → Vec → Vec → Vec
  pub vrmpy : Vec → Vec → Vec

-- The words of 32 bits that bytes in memory stand for, the lowest byte first.
abbrev pub le_words : List ℕ → List ℕ
le_words (a ∷ b ∷ c ∷ d ∷ rest) = (a + b * 2 ^ 8 + c * 2 ^ 16 + d * 2 ^ 24) ∷ le_words rest
le_words _ = []

-- `uint32_t words[32]`, with the vector stored into it
abbrev pub words : (v : Hvx) → v.Vec → List ℕ
words v x = le_words (v.store x)

-- Word by word on two lists of one length.
abbrev pub add_words : List ℕ → List ℕ → List ℕ
add_words (x ∷ xs) (y ∷ ys) = u32 (x + y) ∷ add_words xs ys
add_words _ _ = []

-- A multiply-accumulate is the multiplication followed by the addition of words.
abbrev pub FusesAdd : Hvx → Type 0
FusesAdd v = (acc a b : v.Vec) → v.vrmpyacc acc a b ≡ v.vadd_w acc (v.vrmpy a b)

-- Loading 128 bytes and storing them again gives the same bytes, and a vector is stored as 128 bytes.
pub record KeepsBytes (v : Hvx) : Type 0 where
  pub length-store : (x : v.Vec) → length (v.store x) ≡ vector_bytes
  pub store-load : (bs : List ℕ) → length bs ≡ vector_bytes → v.store (v.load bs) ≡ bs
