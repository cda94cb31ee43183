-- ===== src/Host/Buffers/Laws.antt =====
-- What the probes of `verify_copy` look at, and what they tell.
use native.Mathlib.Nat.{mod-lt, mod-mod_of_dvd, dvd-mul_left}
use mathlib.Core.Path.{subst}
use cdsp_peak.Base.{
  ℕ, zero, suc, ◌+◌, ◌*◌, ◌%◌, ◌≤◌, ◌<◌, ◌≡◌, ◌≢◌, ◌↔◌, ◌⊎◌, inl, inr, refl, sym, ap, ◌∙◌, arith,
  true, false, List, replicate, get_or, u64, Bool-cases,
}
use cdsp_peak.Host.Buffers.{probe_index, probes_agree, probes, verify_copy}

-- The two buffers have the same byte where round `i` looks.
abbrev pub Agree : List ℕ → List ℕ → ℕ → ℕ → Type 0
Agree src dst bytes i = get_or src (probe_index bytes i) 0 ≡ get_or dst (probe_index bytes i) 0

le_cases : (i k : ℕ) → i ≤ k → (i ≡ k) ⊎ (i + 1 ≤ k)
le_cases i k h = omega arith

Agree-everywhere :
    (src dst : List ℕ) (bytes i n : ℕ)
    → probes_agree src dst bytes i n ≡ true
    → (k : ℕ) → i ≤ k
    → k < i + n
    → Agree src dst bytes k
unfolding probes_agree
Agree-everywhere src dst bytes i zero e k h h' = absurd (omega arith)
Agree-everywhere src dst bytes i (suc n) e k h h' = elim (le_cases i k h) [
  | inl f ↦ subst (Agree src dst bytes) f (ground arith)
  | inr g ↦ Agree-everywhere src dst bytes (i + 1) n (ground arith) k g (omega arith)
]

everywhere-Agree :
    (src dst : List ℕ) (bytes i n : ℕ)
    → ((k : ℕ) → i ≤ k → k < i + n → Agree src dst bytes k)
    → probes_agree src dst bytes i n ≡ true
unfolding probes_agree
everywhere-Agree src dst bytes i zero h = refl
everywhere-Agree src dst bytes i (suc n) h =
    let here = h i (omega arith) (omega arith) in
    let later =
      everywhere-Agree src dst bytes (i + 1) n (λ k l l'. h k (omega arith) (omega arith)) in
    ground arith

-- The check of a copy succeeds just where the two buffers agree at every index that is probed.
pub verify_copy_iff :
    (src dst : List ℕ) (bytes : ℕ)
    → (verify_copy src dst bytes ≡ true) ↔ ((i : ℕ) → i < probes bytes → Agree src dst bytes i)
unfolding verify_copy
verify_copy_iff src dst bytes = (
  λ e i h. Agree-everywhere src dst bytes 0 (probes bytes) e i (omega arith) (omega arith),
  λ h. everywhere-Agree src dst bytes 0 (probes bytes) (λ k l l'. h k (omega arith)),
)

odd_cancel : (i j : ℕ) → i < 4096 → j < 4096 → i * 2654435761 % 4096 ≡ j * 2654435761 % 4096 → i ≡ j
odd_cancel i j h h' e = omega arith

probe_mod : (k i : ℕ) → i < 4096 → probe_index (k * 4096) i % 4096 ≡ i * 2654435761 % 4096
probe_mod k i h =
    let e : u64 (i * 2654435761) ≡ i * 2654435761 = omega arith in
    ap (λ x. x % (k * 4096) % 4096) e
    ∙ mod-mod_of_dvd 4096 {b = k * 4096} (i * 2654435761) (dvd-mul_left 4096 k)

-- In a buffer of whole blocks of 4096 bytes, no two of the first 4096 rounds look at the same byte.
pub probe_index_ne :
    (k i j : ℕ) → i < 4096 → j < 4096 → i ≢ j → probe_index (k * 4096) i ≢ probe_index (k * 4096) j
probe_index_ne k i j h h' d e =
    d (odd_cancel i j h h' (sym (probe_mod k i h) ∙ ap (λ x. x % 4096) e ∙ probe_mod k j h'))

probe_index-lt : (k i : ℕ) → 1 ≤ k → probe_index (k * 4096) i < k * 4096
probe_index-lt zero i h = absurd (omega arith)
probe_index-lt (suc k) i h = mod-lt (u64 (i * 2654435761)) {m = suc k * 4096} (omega arith)

-- 3921 is the inverse of the multiplier modulo 4096.
probe_inverse : (r : ℕ) → r < 4096 → r * 3921 % 4096 * 2654435761 % 4096 ≡ r
probe_inverse r h = omega arith

all_probes : (k : ℕ) → 1 ≤ k → probes (k * 4096) ≡ 4096
all_probes k h = ground arith

-- In buffers of whole blocks of 4096 bytes, one or more, let the destination differ from the source
-- at every index with the remainder `r` modulo 4096, for some `r`: then the check of the copy fails.
pub verify_copy_detects :
    (src dst : List ℕ) (k r : ℕ)
    → 1 ≤ k
    → r < 4096
    → ((j : ℕ) → j < k * 4096 → j % 4096 ≡ r → get_or src j 0 ≢ get_or dst j 0)
    → verify_copy src dst (k * 4096) ≡ false
verify_copy_detects src dst k r some_block low differ =
    let i = r * 3921 % 4096 in
    let small : i < 4096 = omega arith in
    elim (Bool-cases (verify_copy src dst (k * 4096))) [
      | inl passed ↦ absurd (
          differ (probe_index (k * 4096) i) (probe_index-lt k i some_block)
            (probe_mod k i small ∙ probe_inverse r low)
            ((verify_copy_iff src dst (k * 4096)).0 passed i
              (omega (arith, all_probes k some_block))))
      | inr failed ↦ failed
    ]

get_or-replicate : (n x j : ℕ) → j < n → get_or (replicate n x) j 0 ≡ x
get_or-replicate zero x j h = absurd (omega arith)
get_or-replicate (suc n) x zero h = refl
get_or-replicate (suc n) x (suc j) h = get_or-replicate n x j (omega arith)

-- Two buffers that are each filled with a byte of their own agree nowhere.
pub replicate_differs :
    (n x y j : ℕ) → x ≢ y → j < n → get_or (replicate n x) j 0 ≢ get_or (replicate n y) j 0
replicate_differs n x y j d h e = d (sym (get_or-replicate n x j h) ∙ e ∙ get_or-replicate n y j h)
