-- ===== src/Host/Arch.antt =====
-- How host/cdsp_peak.c names the DSP library: `normalize_hexagon_arch`, `skel_arch_suffix`,
-- `domain_suffix` and `make_uri`.
pub mod Laws
mod Tests
use Prim.Native.Nat.{bit_and}
use cdsp_peak.Base.{
  ℕ, ◌+◌, ◌*◌, ◌/◌, ◌%◌, ◌^◌, Bool, true, false, ◌&&◌, Option, none, some, List, [], ◌∷◌, ◌++◌,
  length, leb, ◌==◌, if◌then◌else◌, codes,
}
use cdsp_peak.Base.Int.{ℤ, pos, negsuc}
use cdsp_peak.Aee.{aee_success}

-- `arch & 0xff`, `low >> 4` and `low & 0xf` on a `uint32_t`
unfoldable pub normalize_hexagon_arch : ℕ → ℕ
normalize_hexagon_arch arch =
    let low = arch % 2 ^ 8 in
    if leb 60 arch && leb arch 99
    then arch
    else if leb 0x60 low && leb low 0x99
    then low / 2 ^ 4 * 10 + low % 2 ^ 4
    else arch

-- The versions that have a build.
pub data Skel : Type 0 where
  v81 v79 v75 v73 v69 v68 : Skel

abbrev pub skel_text : Skel → List ℕ
skel_text v81 = codes "v81"
skel_text v79 = codes "v79"
skel_text v75 = codes "v75"
skel_text v73 = codes "v73"
skel_text v69 = codes "v69"
skel_text v68 = codes "v68"

-- The switch on the normalized version.
abbrev pub skel_of : ℕ → Option Skel
skel_of version =
    if version == 81
    then some v81
    else if version == 79
    then some v79
    else if version == 75
    then some v75
    else if version == 73
    then some v73
    else if version == 69
    then some v69
    else if version == 68
    then some v68
    else none

unfoldable pub skel_arch_suffix : ℕ → Option Skel
skel_arch_suffix arch = skel_of (normalize_hexagon_arch arch)

-- `a == b`
abbrev same_int : ℤ → ℤ → Bool
same_int (pos m) (pos n) = m == n
same_int (negsuc m) (negsuc n) = m == n
same_int a b = false

-- The domain numbers and texts of remote.h.
pub record Domains : Type 0 where
  pub adsp_domain_id : ℤ
  pub mdsp_domain_id : ℤ
  pub sdsp_domain_id : ℤ
  pub cdsp_domain_id : ℤ
  pub cdsp1_domain_id : ℤ
  pub adsp_domain : List ℕ
  pub mdsp_domain : List ℕ
  pub sdsp_domain : List ℕ
  pub cdsp_domain : List ℕ
  pub cdsp1_domain : List ℕ

unfoldable pub domain_suffix : Domains → ℤ → List ℕ
domain_suffix d domain =
    if same_int domain d.adsp_domain_id
    then d.adsp_domain
    else if same_int domain d.mdsp_domain_id
    then d.mdsp_domain
    else if same_int domain d.sdsp_domain_id
    then d.sdsp_domain
    else if same_int domain d.cdsp_domain_id
    then d.cdsp_domain
    else if same_int domain d.cdsp1_domain_id
    then d.cdsp1_domain
    else d.cdsp_domain

-- `CDSP_PEAK_SKEL_URI_FORMAT`, with the version's text
abbrev pub skel_uri : List ℕ → List ℕ
skel_uri version =
    codes "file:///libcdsp_peak_skel_"
    ++ version
    ++ codes ".so?cdsp_peak_skel_handle_invoke&_modver=1.0&_idlver=0.1.0"

-- `base` is the value of `CDSP_PEAK_URI` in the environment. `there` tells whether `malloc` succeeds
-- for a number of bytes; `enomem` and `enotsup` are `-ENOMEM` and `-ENOTSUP`. The buffer is as long as
-- the text and its zero.
unfoldable pub make_uri :
    Domains → Option (List ℕ) → (ℕ → Bool) → ℤ → ℤ → ℤ → ℕ → ℤ × Option (List ℕ)
make_uri d base there enomem enotsup domain arch =
    let allocated : List ℕ → ℤ × Option (List ℕ) =
      λ uri. if there (length uri + 1) then (aee_success, some uri) else (enomem, none) in
    elim base [
      | some text ↦ allocated (text ++ domain_suffix d domain)
      | none ↦ elim (skel_arch_suffix arch) [
        | none ↦ (enotsup, none)
        | some version ↦ allocated (skel_uri (skel_text version) ++ domain_suffix d domain)
      ]
    ]
