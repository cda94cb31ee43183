-- ===== src/Windows/Compat/Laws.antt =====
-- `executable_dir` of host/cdsp_peak.c over the `readlink` of host/windows_compat.c.
use cdsp_peak.Base.{
  ℕ, zero, suc, same_text, ◌+◌, ◌-◌, ◌≡◌, ◌<◌, ◌⊎◌, inl, inr, refl, ap, ap₂, ◌∙◌, arith, true,
  false, ◌||◌, some, List, [], ◌∷◌, ◌++◌, map, length, length-map, length-append, leb, ◌==◌, codes,
  NoSeparator, split_last-append,
}
use cdsp_peak.Base.Int.{ℤ, pos, negsuc}
use cdsp_peak.Host.ExeDir.{Errno, slash, cut_last, executable_dir}
use cdsp_peak.Windows.Service.{backslash}
use cdsp_peak.Windows.Compat.{Errors, slashed, readlink}

abbrev negated : ℤ → ℤ
negated (pos zero) = pos 0
negated (pos (suc n)) = negsuc n
negated (negsuc n) = pos (n + 1)

-- `readlink` of /proc/self/exe as `executable_dir` calls it: an error is `-errno`.
abbrev as_errno : ℤ ⊎ List ℕ → ℤ ⊎ List ℕ
as_errno (inl errno) = inl (negated errno)
as_errno (inr path) = inr path

abbrev pub own_path : Errors → (ℕ → List ℕ) → ℕ → ℤ ⊎ List ℕ
own_path errors module_file n =
    as_errno (readlink errors module_file (some (codes "/proc/self/exe")) true n)

slashed-id : (c : ℕ) → (c == backslash) ≡ false → slashed c ≡ c
slashed-id c e = rw e refl

map-slashed_id : (cs : List ℕ) → NoSeparator backslash cs → map slashed cs ≡ cs
map-slashed_id [] h = refl
map-slashed_id (c ∷ cs) h = ap₂ ◌∷◌ (slashed-id c h.0) (map-slashed_id cs h.1)

map-append {ℓ κ} :
    {A : Type ℓ} {B : Type κ} (f : A → B) (xs ys : List A) → map f (xs ++ ys) ≡ map f xs ++ map f ys
map-append f [] ys = refl
map-append f (x ∷ xs) ys = ap (λ zs. f x ∷ zs) (map-append f xs ys)

own_path_lem :
    (errors : Errors) (module_file : ℕ → List ℕ) (n : ℕ)
    → 0 < length (module_file n)
    → length (module_file n) < n
    → own_path errors module_file n ≡ inr (map slashed (module_file n))
unfolding readlink same_text
own_path_lem errors module_file n h h' =
    let e₀ : (n == 0) ≡ false = ground arith in
    let e₁ : (length (module_file n) == 0) ≡ false = ground arith in
    let e₂ : leb n (length (module_file n)) ≡ false = ground arith in rw (readlink, e₀, e₁, e₂) refl

slashed_file :
    (before behind : List ℕ)
    → NoSeparator backslash behind
    → map slashed (before ++ (backslash ∷ behind)) ≡ map slashed before ++ (slash ∷ behind)
slashed_file before behind h =
    map-append slashed before (backslash ∷ behind)
    ∙ ap (λ zs. map slashed before ++ (slash ∷ zs)) (map-slashed_id behind h)

-- On Windows, where the program's file has a backslash, neither separator behind it, and a path that
-- fits: `executable_dir` finds the directory of the file, with slashes for its backslashes.
pub executable_dir-own_path :
    (errno : Errno) (errors : Errors) (module_file : ℕ → List ℕ) (dir_size : ℕ)
    (before behind : List ℕ)
    → module_file (dir_size - 1) ≡ before ++ (backslash ∷ behind)
    → NoSeparator backslash behind
    → NoSeparator slash behind
    → length (before ++ (backslash ∷ behind)) < dir_size - 1
    → executable_dir errno (own_path errors module_file) dir_size
      ≡ inr (cut_last (map slashed before, behind))
unfolding executable_dir
executable_dir-own_path errno errors module_file dir_size before behind file h h' fits =
    let n = dir_size - 1 in
    let path = map slashed before ++ (slash ∷ behind) in
    let size = ap length file in
    let long = length-append before (backslash ∷ behind) in
    let e =
      own_path_lem errors module_file n (omega (arith, size, long)) (omega (arith, size))
      ∙ ap (λ f. inr (map slashed f)) file
      ∙ ap inr (slashed_file before behind h) in
    let same : length path ≡ length (before ++ (backslash ∷ behind)) = omega (
      arith,
      long,
      length-append (map slashed before) (slash ∷ behind),
      length-map before slashed,
    ) in
    let e₀ : (dir_size == 0) ≡ false = ground arith in
    let e₁ : ((length path == 0) || leb n (length path)) ≡ false = ground (arith, same, long) in
    rw (executable_dir, e₀, e, e₁, split_last-append slash (map slashed before) behind h') refl
