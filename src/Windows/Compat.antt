-- ===== src/Windows/Compat.antt =====
-- The POSIX calls of host/windows_compat.c: `cdsp_peak_clock_gettime`, `cdsp_peak_setenv` and
-- `cdsp_peak_readlink`. What Windows answers is a parameter.
pub mod Clock
pub mod Threads
pub mod Laws
mod Tests
use cdsp_peak.Base.{
  ℕ, ◌-◌, ◌*◌, ◌/◌, ◌%◌, ◌^◌, Bool, true, false, not, ◌||◌, Option, none, some, List, [], ◌∷◌, map,
  length, leb, ltb, ◌==◌, if◌then◌else◌, codes, same_text, ◌⊎◌, inl, inr,
}
use cdsp_peak.Base.Int.{ℤ, pos}
use cdsp_peak.Host.ExeDir.{slash}
use cdsp_peak.Windows.Service.{backslash}

-- `EINVAL`, `ENOENT` and `ENAMETOOLONG`
pub record Errors : Type 0 where
  pub einval : ℤ
  pub enoent : ℤ
  pub enametoolong : ℤ

-- A name that is missing, empty or has a `=` in it
abbrev pub has_equals : List ℕ → Bool
has_equals [] = false
has_equals (c ∷ cs) = (c == b'=') || has_equals cs

abbrev pub bad_name : Option (List ℕ) → Bool
bad_name none = true
bad_name (some []) = true
bad_name (some (c ∷ cs)) = has_equals (c ∷ cs)

abbrev pub text_or_empty : Option (List ℕ) → List ℕ
text_or_empty none = []
text_or_empty (some text) = text

-- `dupenv` is `_dupenv_s`, `none` where it fails or there is no such variable; `putenv` is `_putenv_s`.
module _ {ℓ} {S : Type ℓ} (errors : Errors) (dupenv : List ℕ → S → Option (List ℕ))
    (putenv : List ℕ → List ℕ → S → ℤ × S) where
  unfoldable pub setenv : Option (List ℕ) → Option (List ℕ) → Bool → S → ℤ × S
  setenv name value overwrite s =
      let put = putenv (text_or_empty name) (text_or_empty value) s in
      if bad_name name
      then (errors.einval, s)
      else if overwrite
      then put
      else elim (dupenv (text_or_empty name) s) [ some existing ↦ (pos 0, s) | none ↦ put ]

abbrev pub slashed : ℕ → ℕ
slashed c = if c == backslash then slash else c

-- `module_file` is `GetModuleFileNameA` with a buffer of so many bytes: what it writes, of the length
-- that it returns. The result is the value of `errno`, where it returns -1, or the bytes.
unfoldable pub readlink : Errors → (ℕ → List ℕ) → Option (List ℕ) → Bool → ℕ → ℤ ⊎ List ℕ
readlink errors module_file path buf_there bufsiz =
    let file = module_file bufsiz in
    if not buf_there || (bufsiz == 0) then inl errors.einval else elim path [
      | none ↦ inl errors.einval
      | some text ↦
          if not (same_text text (codes "/proc/self/exe"))
          then inl errors.enoent
          else if length file == 0
          then inl errors.einval
          else if leb bufsiz (length file)
          then inl errors.enametoolong
          else inr (map slashed file)
    ]
