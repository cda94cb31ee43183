-- ===== src/Host/ExeDir.antt =====
-- `executable_dir`, `executable_dir_has_skel`, `set_env_path` and `add_executable_dir_to_dsp_paths` of
-- host/cdsp_peak.c. A path is the list of its bytes.
pub mod Laws
mod Tests
use cdsp_peak.Base.{
  ℕ, zero, suc, ◌+◌, ◌-◌, ◌≡◌, Bool, true, false, ◌&&◌, ◌||◌, Option, none, some, List, [], ◌∷◌,
  ◌++◌, length, ltb, leb, ◌==◌, split_last, if◌then◌else◌, codes, ◌⊎◌, inl, inr,
}
use cdsp_peak.Base.Int.{ℤ, nonzero}

abbrev pub slash : ℕ
slash = b'/'

-- The values of `-EINVAL`, `-ENAMETOOLONG`, `-ENOMEM` and `-ENOTSUP`. Callers test the results by
-- `if (err)`: `-ENOMEM` is not 0.
pub record Errno : Type 0 where
  pub einval : ℤ
  pub enametoolong : ℤ
  pub enomem : ℤ
  pub enotsup : ℤ
  pub enomem_error : nonzero enomem ≡ true

-- `PATH_MAX`
abbrev pub path_max : ℕ
path_max = 4096

-- What `dir` holds once the slash, or what is behind it if the slash stands first, is cut off.
abbrev pub cut_last : List ℕ × List ℕ → List ℕ
cut_last ([], behind) = slash ∷ []
cut_last (c ∷ before, behind) = c ∷ before

-- `readlink` is the call on /proc/self/exe with a buffer of so many bytes: `-errno`, or the bytes that
-- it wrote. The result is an error or the text in `dir`.
unfoldable pub executable_dir : Errno → (ℕ → ℤ ⊎ List ℕ) → ℕ → ℤ ⊎ List ℕ
executable_dir errno readlink dir_size =
    if dir_size == 0 then inl errno.einval else elim (readlink (dir_size - 1)) [
      | inl err ↦ inl err
      | inr path ↦
          if (length path == 0) || leb (dir_size - 1) (length path)
          then inl errno.enametoolong
          else elim (split_last slash path) [
            | none ↦ inl errno.einval
            | some parts ↦ inr (cut_last parts)
          ]
    ]

abbrev pub skel_names : List (List ℕ)
skel_names =
    codes "libcdsp_peak_skel_v68.so"
    ∷ codes "libcdsp_peak_skel_v69.so"
    ∷ codes "libcdsp_peak_skel_v73.so"
    ∷ codes "libcdsp_peak_skel_v75.so"
    ∷ codes "libcdsp_peak_skel_v79.so"
    ∷ codes "libcdsp_peak_skel_v81.so"
    ∷ []

-- The loop over the names that are left; `readable` is `access(path, R_OK) == 0`.
unfoldable pub has_skel : (List ℕ → Bool) → List ℕ → List (List ℕ) → Bool
has_skel readable dir [] = false
has_skel readable dir (name ∷ names) =
    let path = dir ++ (slash ∷ name) in
    (ltb (length path) path_max && readable path) || has_skel readable dir names

unfoldable pub executable_dir_has_skel : (List ℕ → Bool) → List ℕ → Bool
executable_dir_has_skel readable dir = has_skel readable dir skel_names

module _ {ℓ} {S : Type ℓ} (setenv : List ℕ → List ℕ → S → S) where
  unfoldable pub set_env_path : List ℕ → List ℕ → S → S
  set_env_path name [] s = s
  set_env_path name (c ∷ dir) s = setenv name (c ∷ dir) s

  unfoldable pub add_executable_dir_to_dsp_paths :
      Errno → (ℕ → ℤ ⊎ List ℕ) → (List ℕ → Bool) → S → S
  add_executable_dir_to_dsp_paths errno readlink readable s =
      elim (executable_dir errno readlink path_max) [
        | inl err ↦ s
        | inr dir ↦
            if executable_dir_has_skel readable dir
            then set_env_path (codes "DSP_LIBRARY_PATH") dir
                (set_env_path (codes "ADSP_LIBRARY_PATH") dir s)
            else s
      ]
