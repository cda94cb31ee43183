-- ===== src/Windows/Service/Laws.antt =====
-- `load_from_env` and `load_from_service` close what they open, and where the library is looked for.
use mathlib.Core.List.{append_assoc}
use cdsp_peak.Base.{
  ℕ, ◌+◌, ◌-◌, ◌<◌, ◌≡◌, ◌∙◌, refl, sym, ap, inl, inr, arith, Bool, true, false, Option, some, List,
  [], ◌∷◌, ◌++◌, length, take_all, same_text, ltb, length-append, if◌then◌else◌, codes, NoSeparator,
  split_last, split_last-append, Option-cases,
}
use cdsp_peak.Windows.System.{
  Windows, Resource, env_text, sc_manager, sc_service, service_config, Event, opened, closed, Sys,
  note,
}
use cdsp_peak.Windows.Service.{
  backslash, path_room, truncated, system_root, replace_system_root, dll_path, load_library,
  utf8_to_wide, load_from_env, Found, read_config, read_service, find_path, close_if, close_found,
  load_from_service,
}

abbrev same : Resource → Resource → ℕ
same env_text env_text = 1
same sc_manager sc_manager = 1
same sc_service sc_service = 1
same service_config service_config = 1
same r r' = 0

abbrev pub times_opened : Resource → List Event → ℕ
times_opened r [] = 0
times_opened r (opened r' ∷ tr) = same r r' + times_opened r tr
times_opened r (closed r' ∷ tr) = times_opened r tr

abbrev pub times_closed : Resource → List Event → ℕ
times_closed r [] = 0
times_closed r (opened r' ∷ tr) = times_closed r tr
times_closed r (closed r' ∷ tr) = same r r' + times_closed r tr

module _ (w : Windows) (r : Resource) where
  -- What was opened on the way from one state to another was closed on the way.
  abbrev pub Settles : Sys w → Sys w → Type 0
  Settles sys sys' =
      times_opened r sys'.trace + times_closed r sys.trace
      ≡ times_closed r sys'.trace + times_opened r sys.trace

  load_library-trace : (path : List ℕ) (sys : Sys w) → (load_library w path sys).1.trace ≡ sys.trace
  unfolding load_library
  load_library-trace path sys = refl

  pub load_from_env-Settles : (sys : Sys w) → Settles sys (load_from_env w sys).1
  unfolding load_from_env load_library utf8_to_wide
  load_from_env-Settles sys = elim (Option-cases (w.dupenv sys.world)) [
    | inl e ↦ rw (load_from_env, e) (omega arith)
    | inr (text, e) ↦ elim (Option-cases (w.multi_byte_to_wide_char text path_room)) [
      | inl f ↦ rw (load_from_env, e, f) (omega arith)
      | inr (wide, f) ↦ rw (load_from_env, e, f) (omega arith)
    ]
  ]

  -- What is held where the search ends.
  abbrev weight_if : Bool → Resource → ℕ
  weight_if there r' = if there then same r r' else 0

  abbrev held : Found w → ℕ
  held f =
      weight_if f.has_scm sc_manager
      + weight_if f.has_service sc_service
      + weight_if f.has_config service_config

  abbrev Holds : Sys w → ℕ → Found w × Sys w → Type 0
  Holds sys before (f, sys') =
      (times_opened r sys'.trace + before ≡ held f + times_opened r sys.trace)
      × (times_closed r sys'.trace ≡ times_closed r sys.trace)

  read_config-Holds :
      (s : ℕ) (sys : Sys w)
      → Holds sys (same r sc_manager + same r sc_service) (read_config w s sys)
  unfolding read_config
  read_config-Holds s sys = elim (Option-cases (w.query_needed s sys.world)) [
    | inl e ↦ rw (read_config, e) (omega arith, refl)
    | inr (needed, e) ↦ elim (Option-cases (w.local_alloc needed sys.world)) [
      | inl f ↦ rw (read_config, e, f) (omega arith, refl)
      | inr (p, f) ↦ elim (Option-cases (w.query_config s needed sys.world)) [
        | inl g ↦ rw (read_config, e, f, g) (omega arith, refl)
        | inr (binary, g) ↦ rw (read_config, e, f, g) (omega arith, refl)
      ]
    ]
  ]

  read_service-Holds :
      (m : ℕ) (name : List ℕ) (sys : Sys w)
      → Holds sys (same r sc_manager) (read_service w m name sys)
  unfolding read_service
  read_service-Holds m name sys =
      let o = w.open_service m name sys.world in
      elim (Option-cases o.0) [
        | inl e ↦ rw (read_service, e) (omega arith, refl)
        | inr (s, e) ↦
            let g = read_config-Holds s (note (opened sc_service) (record sys { world = o.1 })) in
            rw (read_service, e) (omega (arith, g.0), g.1)
      ]

  find_path-Holds : (name : List ℕ) (sys : Sys w) → Holds sys 0 (find_path w name sys)
  unfolding find_path
  find_path-Holds name sys =
      let o = w.open_sc_manager sys.world in
      elim (Option-cases o.0) [
        | inl e ↦ rw (find_path, e) (omega arith, refl)
        | inr (m, e) ↦
            let g =
              read_service-Holds m name (note (opened sc_manager) (record sys { world = o.1 })) in
            rw (find_path, e) (omega (arith, g.0), g.1)
      ]

  close_if_lem :
      (there : Bool) (r' : Resource) (sys : Sys w)
      → let sys' = close_if w there r' sys in
        (times_opened r sys'.trace ≡ times_opened r sys.trace)
        × (times_closed r sys'.trace ≡ weight_if there r' + times_closed r sys.trace)
  close_if_lem true r' sys = (refl, refl)
  close_if_lem false r' sys = (refl, omega arith)

  close_found_lem :
      (f : Found w) (sys : Sys w)
      → let sys' = close_found w f sys in
        (times_opened r sys'.trace ≡ times_opened r sys.trace)
        × (times_closed r sys'.trace ≡ held f + times_closed r sys.trace)
  unfolding close_found
  close_found_lem f sys =
      let sys₁ = close_if w f.has_config service_config sys in
      let sys₂ = close_if w f.has_service sc_service sys₁ in
      let g₁ = close_if_lem f.has_config service_config sys in
      let g₂ = close_if_lem f.has_service sc_service sys₁ in
      let g₃ = close_if_lem f.has_scm sc_manager sys₂ in
      (omega (arith, g₁.0, g₂.0, g₃.0), omega (arith, g₁.1, g₂.1, g₃.1))

  -- Whichever call of Windows fails, the service manager, the service and its configuration are each
  -- closed by `load_from_service` as often as it opened them.
  pub load_from_service-Settles :
      (name : List ℕ) (sys : Sys w) → Settles sys (load_from_service w name sys).1
  unfolding load_from_service load_library
  load_from_service-Settles name sys =
      let found = find_path w name sys in
      let g = find_path-Holds name sys in
      elim (Option-cases found.0.path) [
        | inl e ↦
            let h = close_found_lem found.0 found.1 in
            rw (load_from_service, e) (omega (arith, g.0, g.1, h.0, h.1))
        | inr (path, e) ↦
            let h = close_found_lem found.0 (load_library w path found.1).1 in
            rw (load_from_service, e) (omega (arith, g.0, g.1, h.0, h.1))
      ]

truncated_short : (text : List ℕ) → length text < path_room → truncated text ≡ text
truncated_short text h = take_all (path_room - 1) text (omega arith)

beside_lem :
    (windir : Option (List ℕ)) (binary before behind : List ℕ)
    → NoSeparator backslash behind
    → length before < path_room - 15
    → replace_system_root windir (truncated binary) ≡ before ++ (backslash ∷ behind)
    → dll_path windir binary ≡ some (before ++ (backslash ∷ codes "libcdsprpc.dll"))
unfolding dll_path
beside_lem windir binary before behind none_behind short e =
    let split =
      ap (split_last backslash) e ∙ split_last-append backslash before behind none_behind in
    rw (dll_path, split)
      (ap some (
        truncated_short (before ++ (backslash ∷ codes "libcdsprpc.dll"))
          (omega (arith, length-append before (backslash ∷ codes "libcdsprpc.dll")))))

below_windows :
    (windir rest : List ℕ)
    → length (windir ++ rest) < path_room - 15
    → replace_system_root (some windir) (system_root ++ rest) ≡ windir ++ rest
unfolding replace_system_root same_text
below_windows windir rest short =
    let fits : ltb (length (windir ++ rest)) path_room ≡ true = ground arith in
    rw (replace_system_root, fits) (truncated_short (windir ++ rest) (omega arith))

-- A driver below `\SystemRoot`, with a path that fits: the library is looked for in the directory of
-- the driver, below the directory of Windows.
pub dll_path-beside :
    (windir before behind : List ℕ)
    → NoSeparator backslash behind
    → length (windir ++ (before ++ (backslash ∷ behind))) < path_room - 15
    → dll_path (some windir) (system_root ++ (before ++ (backslash ∷ behind)))
      ≡ some ((windir ++ before) ++ (backslash ∷ codes "libcdsprpc.dll"))
dll_path-beside windir before behind none_behind short =
    let rest = before ++ (backslash ∷ behind) in
    let both = length-append windir rest in
    let parts = length-append before (backslash ∷ behind) in
    let whole = truncated_short (system_root ++ rest) (omega (arith, both)) in
    beside_lem (some windir) (system_root ++ rest) (windir ++ before) behind none_behind
      (omega (arith, both, parts, length-append windir before))
      (ap (replace_system_root (some windir)) whole
        ∙ below_windows windir rest short
        ∙ sym (append_assoc windir before (backslash ∷ behind)))
