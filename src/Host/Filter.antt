-- ===== src/Host/Filter.antt =====
-- `scenario_enabled` of host/cdsp_peak.c: whether a scenario is named in the filter, a list of names
-- with commas between them.
pub mod Laws
use cdsp_peak.Base.{
  ℕ, zero, suc, ◌+◌, Bool, true, false, ◌&&◌, ◌||◌, Option, none, some, List, [], ◌∷◌, length, ◌==◌,
  if◌then◌else◌, codes, same_text,
}
use cdsp_peak.Host.Options.{Options}

abbrev pub comma : ℕ
comma = b','

-- The bytes before the first comma, all of them if there is none.
unfoldable pub before_comma : List ℕ → List ℕ
before_comma [] = []
before_comma (c ∷ cs) = if c == comma then [] else c ∷ before_comma cs

-- The bytes behind the first comma, `none` where `strchr` finds none.
unfoldable pub after_comma : List ℕ → Option (List ℕ)
after_comma [] = none
after_comma (c ∷ cs) = if c == comma then some cs else after_comma cs

-- The loop, with fuel for its rounds.
unfoldable pub filter_names : ℕ → List ℕ → List ℕ → Bool
filter_names fuel [] name = false
filter_names zero (c ∷ cs) name = false
filter_names (suc fuel) (c ∷ cs) name =
    let item = before_comma (c ∷ cs) in
    let later : Bool = elim (after_comma (c ∷ cs)) [
      | none ↦ false
      | some rest ↦ filter_names fuel rest name
    ] in
    if (length item == length name) && same_text item name then true else later

-- `scenario_enabled`; the filter has fewer items than bytes, or one.
unfoldable pub scenario_enabled : Options → List ℕ → Bool
scenario_enabled opt name =
    if same_text opt.scenario_filter (codes "all")
    then true
    else filter_names (length opt.scenario_filter) opt.scenario_filter name
