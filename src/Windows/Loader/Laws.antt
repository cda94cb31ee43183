-- ===== src/Windows/Loader/Laws.antt =====
-- The loader tries once, and no call goes through a null pointer.
use mathlib.Core.Path.{subst}
use cdsp_peak.Base.{arith}
use cdsp_peak.Base.{
  ℕ, ◌≡◌, ◌∙◌, refl, sym, ap, inl, inr, true, false, some, List, [], ◌∷◌, All, ◌==◌, if◌then◌else◌,
  Bool-cases, Option-cases,
}
use cdsp_peak.Base.Int.{ℤ, nonzero}
use cdsp_peak.Windows.System.{
  Windows, Symbol, handle64_open, handle64_invoke, handle64_close, handle_control, handle64_control,
  session_control, alloc, alloc2, free, to_fd, Sys,
}
use cdsp_peak.Windows.Loader.{
  number, same_symbol, Slots, set_slot, Loader, required, load_symbol, load_required, find_library,
  load_slots, ensure_cdsprpc_loaded,
}

abbrev of_number : ℕ → Symbol
of_number n =
    if n == 0
    then handle64_open
    else if n == 1
    then handle64_invoke
    else if n == 2
    then handle64_close
    else if n == 3
    then handle_control
    else if n == 4
    then handle64_control
    else if n == 5
    then session_control
    else if n == 6
    then alloc
    else if n == 7
    then alloc2
    else if n == 8
    then free
    else to_fd

of_number_lem : (s : Symbol) → of_number (number s) ≡ s
of_number_lem handle64_open = refl
of_number_lem handle64_invoke = refl
of_number_lem handle64_close = refl
of_number_lem handle_control = refl
of_number_lem handle64_control = refl
of_number_lem session_control = refl
of_number_lem alloc = refl
of_number_lem alloc2 = refl
of_number_lem free = refl
of_number_lem to_fd = refl

same_symbol→eq : (s t : Symbol) → same_symbol s t ≡ true → s ≡ t
same_symbol→eq s t e =
    let f : number s ≡ number t = ground arith in
    sym (of_number_lem s) ∙ ap of_number f ∙ of_number_lem t

module _ (w : Windows) where
  -- The slot of the symbol holds what the library gives for it.
  abbrev IsFrom : ℕ → Slots → Symbol → Type 0
  IsFrom library slots s = slots s ≡ w.get_proc_address library s

  set_slot-IsFrom :
      (library : ℕ) (s t : Symbol) (slots : Slots)
      → IsFrom library slots t
      → IsFrom library (set_slot s (w.get_proc_address library s) slots) t
  set_slot-IsFrom library s t slots h = elim (Bool-cases (same_symbol s t)) [
    | inl e ↦ rw e (ap (w.get_proc_address library) (same_symbol→eq s t e))
    | inr e ↦ rw e h
  ]

  set_slot_self :
      (library : ℕ) (s : Symbol) (slots : Slots)
      → IsFrom library (set_slot s (w.get_proc_address library s) slots) s
  set_slot_self library s slots = let e : same_symbol s s ≡ true = ground arith in rw e refl

  -- Every required function was found in the library that is loaded.
  abbrev pub IsLoaded : Loader → Type 0
  IsLoaded l =
      (library : ℕ) × (l.cdsprpc ≡ some library)
      × All (λ s. (p : ℕ) × (l.slots s ≡ some p) × (w.get_proc_address library s ≡ some p)) required

  -- Once there was a try that succeeded.
  abbrev pub IsSound : Loader → Type 0
  IsSound l = l.initialized ≡ true → nonzero l.init_status ≡ false → IsLoaded l

  -- What the slots hold when symbols were loaded, and what they still hold.
  load_required-keeps :
      (library : ℕ) (ss : List Symbol) (slots : Slots) (t : Symbol)
      → IsFrom library slots t
      → let r = load_required w library ss slots in nonzero r.0 ≡ false → IsFrom library r.1 t
  unfolding load_required load_symbol
  load_required-keeps library [] slots t h = λ e. h
  load_required-keeps library (s ∷ ss) slots t h =
      elim (Option-cases (w.get_proc_address library s)) [
        | inl e ↦ rw (load_required, load_symbol, e, w.eunabletoload_error) (λ f. absurd cc)
        | inr (p, e) ↦
            let kept =
              subst (λ o. IsFrom library (set_slot s o slots) t) e
                (set_slot-IsFrom library s t slots h) in
            rw (load_required, load_symbol, e)
              (load_required-keeps library ss (set_slot s (some p) slots) t kept)
      ]

  load_required_step :
      (library : ℕ) (s : Symbol) (ss : List Symbol) (slots : Slots) (p : ℕ)
      → w.get_proc_address library s ≡ some p
      → load_required w library (s ∷ ss) slots
        ≡ load_required w library ss (set_slot s (some p) slots)
  unfolding load_required load_symbol
  load_required_step library s ss slots p e = rw (load_required, load_symbol, e) refl

  -- Where there is no error, the symbols were found and stored.
  abbrev Found : ℕ → List Symbol → ℤ × Slots → Type 0
  Found library ss r =
      nonzero r.0 ≡ false
      → All (λ s. (p : ℕ) × (r.1 s ≡ some p) × (w.get_proc_address library s ≡ some p)) ss

  load_required-Found :
      (library : ℕ) (ss : List Symbol) (slots : Slots)
      → Found library ss (load_required w library ss slots)
  unfolding load_required load_symbol
  load_required-Found library [] slots = λ e. _
  load_required-Found library (s ∷ ss) slots = elim (Option-cases (w.get_proc_address library s)) [
    | inl e ↦ rw (load_required, load_symbol, e, w.eunabletoload_error) (λ f. absurd cc)
    | inr (p, e) ↦
        let here =
          subst (λ o. IsFrom library (set_slot s o slots) s) e (set_slot_self library s slots) in
        let slots' = set_slot s (some p) slots in
        subst (Found library (s ∷ ss)) (sym (load_required_step library s ss slots p e)) (λ f. (
          (p, load_required-keeps library ss slots' s here f ∙ e, e),
          load_required-Found library ss slots' f,
        ))
  ]

  -- `rpcmem_alloc2` comes behind, and has a slot of its own.
  load_slots-Found :
      (library : ℕ) (slots : Slots) → Found library required (load_slots w library slots)
  unfolding load_slots
  load_slots-Found library slots =
      let r = load_required w library required slots in
      elim (Bool-cases (nonzero r.0)) [
        | inl e ↦ rw (load_slots, e) (λ f. absurd cc)
        | inr e ↦
            let found = load_required-Found library required slots e in
            rw (load_slots, e) (λ f. found)
      ]

  -- A second call finds the first one's answer, and looks for nothing any more.
  pub ensure_cdsprpc_loaded-again :
      (l : Loader) (sys : Sys w)
      → let (err, l', sys') = ensure_cdsprpc_loaded w l sys in
        ensure_cdsprpc_loaded w l' sys' ≡ (err, l', sys')
  unfolding ensure_cdsprpc_loaded
  ensure_cdsprpc_loaded-again l sys = elim (Bool-cases l.initialized) [
    | inl e ↦ rw (ensure_cdsprpc_loaded, e) refl
    | inr e ↦ elim (Option-cases (find_library w sys).0) [
      | inl f ↦ rw (ensure_cdsprpc_loaded, e, f) refl
      | inr (h, f) ↦ rw (ensure_cdsprpc_loaded, e, f) refl
    ]
  ]

  pub ensure-IsSound :
      (l : Loader) (sys : Sys w)
      → IsSound l
      → let (err, l', sys') = ensure_cdsprpc_loaded w l sys in
        (nonzero err ≡ false → IsLoaded l') × IsSound l'
  unfolding ensure_cdsprpc_loaded
  ensure-IsSound l sys sound = elim (Bool-cases l.initialized) [
    | inl e ↦ rw (ensure_cdsprpc_loaded, e) (sound e, λ h. sound e)
    | inr e ↦ elim (Option-cases (find_library w sys).0) [
      | inl f ↦
          let bad = w.eunabletoload_error in
          rw (ensure_cdsprpc_loaded, e, f) ((λ g. absurd cc), λ h g. absurd cc)
      | inr (library, f) ↦
          let found = load_slots-Found library l.slots in
          rw (ensure_cdsprpc_loaded, e, f)
            ((λ g. (library, refl, found g)), λ h g. (library, refl, found g))
    ]
  ]
