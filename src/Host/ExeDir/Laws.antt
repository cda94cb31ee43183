-- ===== src/Host/ExeDir/Laws.antt =====
-- What `executable_dir` leaves in its buffer.
use mathlib.Core.Path.{subst}
use cdsp_peak.Base.{
  ℕ, ◌-◌, ◌≤◌, ◌<◌, ◌≡◌, ◌⊎◌, inl, inr, refl, ap, arith, false, ◌||◌, List, [], ◌∷◌, IsSplit,
  NoSeparator, SplitOutcome, split_last, split_last_lem, length, length-append, leb, ◌==◌,
  Option-cases,
}
use cdsp_peak.Base.Int.{ℤ}
use cdsp_peak.Host.ExeDir.{Errno, slash, cut_last, executable_dir}

length-cut_last :
    (path : List ℕ) (parts : List ℕ × List ℕ)
    → IsSplit slash path parts
    → length (cut_last parts) ≤ length path
length-cut_last path ([], behind) h =
    omega (arith, ap length h.0, length-append [] (slash ∷ behind))
length-cut_last path (c ∷ before, behind) h =
    omega (arith, ap length h.0, length-append (c ∷ before) (slash ∷ behind))

-- Where the link is an absolute path that fits with room for its zero and one byte more, the buffer
-- holds what stands before the last slash, or the slash if it stands first, and that fits too.
pub executable_dir_lem :
    (errno : Errno) (readlink : ℕ → ℤ ⊎ List ℕ) (dir_size : ℕ) (rest : List ℕ)
    → readlink (dir_size - 1) ≡ inr (slash ∷ rest)
    → length (slash ∷ rest) < dir_size - 1
    → (parts : List ℕ × List ℕ) × IsSplit slash (slash ∷ rest) parts
      × (executable_dir errno readlink dir_size ≡ inr (cut_last parts))
      × (length (cut_last parts) < dir_size)
unfolding executable_dir
executable_dir_lem errno readlink dir_size rest e h =
    let some_size : (dir_size == 0) ≡ false = ground arith in
    let fits : ((length (slash ∷ rest) == 0) || leb (dir_size - 1) (length (slash ∷ rest)))
        ≡ false =
      ground arith in
    elim (Option-cases (split_last slash (slash ∷ rest))) [
      | inl f ↦
          let none_there : NoSeparator slash (slash ∷ rest) =
            subst (SplitOutcome slash (slash ∷ rest)) f (split_last_lem slash (slash ∷ rest)) in
          absurd (ground (arith, none_there.0))
      | inr (parts, f) ↦
          let split : IsSplit slash (slash ∷ rest) parts =
            subst (SplitOutcome slash (slash ∷ rest)) f (split_last_lem slash (slash ∷ rest)) in
          (
            parts,
            split,
            rw (executable_dir, some_size, e, fits, f) refl,
            omega (arith, length-cut_last (slash ∷ rest) parts split),
          )
    ]
