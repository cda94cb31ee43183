-- ===== src/Host/Buffers.antt =====
-- The contents of the host's buffers: `fill_source`, `verify_copy`, `fill_hmx_fp16_tile` and
-- `fill_hmx_inputs` of host/cdsp_peak.c.
pub mod Laws
mod Tests
use cdsp_peak.Base.{
  ℕ, zero, suc, ◌+◌, ◌*◌, ◌/◌, ◌%◌, ◌^◌, Bool, true, false, Option, List, [], ◌∷◌, ◌++◌, length,
  replicate, get_or, ltb, ◌==◌, u64, if◌then◌else◌,
}

-- `(uint8_t)((i * 131u + 17u) & 0xffu)` in the 64-bit `size_t` of `i`
abbrev pub source_byte : ℕ → ℕ
source_byte i = u64 (u64 (i * 131) + 17) % 2 ^ 8

-- The bytes from index `i` on, so many.
unfoldable pub fill_from : ℕ → ℕ → List ℕ
fill_from i zero = []
fill_from i (suc n) = source_byte i ∷ fill_from (i + 1) n

unfoldable pub fill_source : ℕ → List ℕ
fill_source bytes = fill_from 0 bytes

-- The index that round `i` of `verify_copy` compares.
abbrev pub probe_index : ℕ → ℕ → ℕ
probe_index bytes i = u64 (i * 2654435761) % bytes

-- The rounds that are left, from `i` on: whether they all agree.
unfoldable pub probes_agree : List ℕ → List ℕ → ℕ → ℕ → ℕ → Bool
probes_agree src dst bytes i zero = true
probes_agree src dst bytes i (suc n) =
    let at = probe_index bytes i in
    let rest = probes_agree src dst bytes (i + 1) n in
    if get_or src at 0 == get_or dst at 0 then rest else false

-- The number of rounds
abbrev pub probes : ℕ → ℕ
probes bytes = if ltb bytes 4096 then bytes else 4096

-- `verify_copy`, true where it returns 0.
unfoldable pub verify_copy : List ℕ → List ℕ → ℕ → Bool
verify_copy src dst bytes = probes_agree src dst bytes 0 (probes bytes)

-- `fill_hmx_fp16_tile`: a last odd byte is left as it is.
unfoldable pub fill_hmx_fp16_tile : List ℕ → List ℕ
fill_hmx_fp16_tile [] = []
fill_hmx_fp16_tile (b ∷ []) = b ∷ []
fill_hmx_fp16_tile (b ∷ b' ∷ bs) = 0x00 ∷ 0x3c ∷ fill_hmx_fp16_tile bs

-- `HMX_FP16_HF_X64`
abbrev pub hmx_fp16_hf_x64 : ℕ
hmx_fp16_hf_x64 = 18

-- The activation, the weight and the output, each as long as the scenario says.
unfoldable pub fill_hmx_inputs : ℕ → List ℕ → List ℕ → List ℕ → List ℕ × List ℕ × List ℕ
fill_hmx_inputs mode activation weight output =
    let zeros = replicate (length output) 0 in
    if mode == hmx_fp16_hf_x64
    then (fill_hmx_fp16_tile activation, fill_hmx_fp16_tile weight, zeros)
    else (replicate (length activation) 1, replicate (length weight) 1, zeros)
