-- ===== src/Host/Filter/Laws.antt =====
-- The filter against an independent splitting at the commas.
use cdsp_peak.Base.{
  ℕ, zero, suc, ◌≤◌, ◌<◌, ◌≡◌, refl, sym, ap, ◌∙◌, arith, Bool, true, false, ◌||◌, Option, none,
  some, List, [], ◌∷◌, length, ◌==◌, if◌then◌else◌, codes, same_text, length-same_text,
  same_text_cons, Bool-cases, inl, inr,
}
use cdsp_peak.Host.Options.{Options}
use cdsp_peak.Host.Filter.{comma, before_comma, after_comma, filter_names, scenario_enabled}

-- The fields of a text between its commas: one more than it has commas.
abbrev grow : ℕ → List (List ℕ) → List (List ℕ)
grow c [] = (c ∷ []) ∷ []
grow c (f ∷ fs) = (c ∷ f) ∷ fs

abbrev pub fields : List ℕ → List (List ℕ)
fields [] = [] ∷ []
fields (c ∷ cs) = if c == comma then [] ∷ fields cs else grow c (fields cs)

abbrev pub among : List ℕ → List (List ℕ) → Bool
among name [] = false
among name (f ∷ fs) = same_text f name || among name fs

abbrev rest_fields : Option (List ℕ) → List (List ℕ)
rest_fields none = []
rest_fields (some rest) = fields rest

fields-first : (cs : List ℕ) → fields cs ≡ before_comma cs ∷ rest_fields (after_comma cs)
unfolding before_comma after_comma
fields-first [] = refl
fields-first (c ∷ cs) = elim (Bool-cases (c == comma)) [
  | inl e ↦ rw e refl
  | inr e ↦ rw (e, fields-first cs) refl
]

length-after_comma : (cs rest : List ℕ) → after_comma cs ≡ some rest → length rest < length cs
unfolding after_comma
length-after_comma [] rest e = absurd cc
length-after_comma (c ∷ cs) rest e = elim (Bool-cases (c == comma)) [
  | inl f ↦ let g : some cs ≡ some rest = cc in ground arith
  | inr f ↦ let g : after_comma cs ≡ some rest = cc in omega (arith, length-after_comma cs rest g)
]

if_or : (a b : Bool) → (if a then true else b) ≡ (a || b)
if_or true b = refl
if_or false b = refl

abbrev later_names : ℕ → List ℕ → Option (List ℕ) → Bool
later_names fuel name none = false
later_names fuel name (some rest) = filter_names fuel rest name

later_names_lem :
    (fuel : ℕ) (name : List ℕ) (o : Option (List ℕ))
    → ((rest : List ℕ) → o ≡ some rest → filter_names fuel rest name ≡ among name (fields rest))
    → later_names fuel name o ≡ among name (rest_fields o)
later_names_lem fuel name none h = refl
later_names_lem fuel name (some rest) h = h rest refl

-- As much fuel as the filter has bytes is enough.
filter_names_lem :
    (fuel : ℕ) (filter : List ℕ) (c : ℕ) (cs : List ℕ)
    → length filter ≤ fuel
    → filter_names fuel filter (c ∷ cs) ≡ among (c ∷ cs) (fields filter)
unfolding filter_names
filter_names_lem fuel [] c cs h = ground (arith, same_text_cons c cs)
filter_names_lem zero (x ∷ xs) c cs h = absurd (omega arith)
filter_names_lem (suc fuel) (x ∷ xs) c cs h =
    let name : List ℕ = c ∷ cs in
    let filter : List ℕ = x ∷ xs in
    let item = before_comma filter in
    let later = later_names fuel name (after_comma filter) in
    let shorter : (rest : List ℕ) → after_comma filter ≡ some rest → length rest ≤ fuel =
      λ rest e. omega (arith, length-after_comma filter rest e) in
    let first : filter_names (suc fuel) filter name
        ≡ (if same_text item name then true else later) =
      ap (λ (b : Bool). if b then true else later) (length-same_text item name) in
    first
    ∙ if_or (same_text item name) later
    ∙ ap (λ y. same_text item name || y)
        (later_names_lem fuel name (after_comma filter)
          (λ rest e. filter_names_lem fuel rest c cs (shorter rest e)))
    ∙ ap (among name) (sym (fields-first filter))

-- A scenario with a name that is not empty is enabled exactly where the filter is `all` or the name
-- is one of the fields of the filter between its commas.
pub scenario_enabled_lem :
    (opt : Options) (c : ℕ) (cs : List ℕ)
    → scenario_enabled opt (c ∷ cs)
      ≡ (same_text opt.scenario_filter (codes "all") || among (c ∷ cs) (fields opt.scenario_filter))
unfolding scenario_enabled
scenario_enabled_lem opt c cs =
    let filter = opt.scenario_filter in
    ap (λ y. if same_text filter (codes "all") then true else y)
      (filter_names_lem (length filter) filter c cs (omega arith))
    ∙ if_or (same_text filter (codes "all")) (among (c ∷ cs) (fields filter))
