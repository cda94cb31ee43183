-- ===== src/Windows/Loader.antt =====
-- The loader of host/fastrpc_windows.c: `load_symbol`, `ensure_cdsprpc_loaded` and the functions that
-- it stands in front of. A call through a null pointer has no result.
pub mod Laws
pub mod Serve
use cdsp_peak.Base.{
  ℕ, ◌-◌, ◌^◌, Bool, true, false, not, Option, none, some, List, [], ◌∷◌, ltb, ◌==◌, if◌then◌else◌,
  codes,
}
use cdsp_peak.Base.Int.{ℤ, pos, negsuc, nonzero, to_ℕ}
use cdsp_peak.Aee.{aee_success}
use cdsp_peak.Windows.System.{
  Windows, Symbol, handle64_open, handle64_invoke, handle64_close, handle_control, handle64_control,
  session_control, alloc, alloc2, free, to_fd, Call, call_open, call_invoke, call_close,
  call_handle_control, call_handle64_control, call_session_control, call_alloc, call_alloc2,
  call_free, call_to_fd, Sys,
}
use cdsp_peak.Windows.Service.{load_library, load_from_env, load_from_service}

abbrev pub number : Symbol → ℕ
number handle64_open = 0
number handle64_invoke = 1
number handle64_close = 2
number handle_control = 3
number handle64_control = 4
number session_control = 5
number alloc = 6
number alloc2 = 7
number free = 8
number to_fd = 9

abbrev pub same_symbol : Symbol → Symbol → Bool
same_symbol s t = number s == number t

-- The function pointers `g_*`, `none` for null.
abbrev pub Slots : Type 0
Slots = Symbol → Option ℕ

abbrev pub set_slot : Symbol → Option ℕ → Slots → Slots
set_slot s p slots t = if same_symbol s t then p else slots t

-- The static variables.
pub record Loader : Type 0 where
  pub initialized : Bool
  pub init_status : ℤ
  pub cdsprpc : Option ℕ
  pub slots : Slots

-- The symbols of `LOAD_REQUIRED`, in its order.
abbrev pub required : List Symbol
required =
    handle64_open ∷ handle64_invoke ∷ handle64_close ∷ handle_control ∷ handle64_control
    ∷ session_control ∷ alloc ∷ free ∷ to_fd ∷ []

module _ (w : Windows) where
  abbrev pub at_start : Loader
  at_start = record {
    initialized = false;
    init_status = w.aee.efailed;
    cdsprpc = none;
    slots = λ s. none;
  }

  unfoldable pub load_symbol : ℕ → Symbol → Slots → ℤ × Slots
  load_symbol library s slots = elim (w.get_proc_address library s) [
    | none ↦ (w.eunabletoload, set_slot s none slots)
    | some p ↦ (aee_success, set_slot s (some p) slots)
  ]

  -- The `LOAD_REQUIRED` that are left.
  unfoldable pub load_required : ℕ → List Symbol → Slots → ℤ × Slots
  load_required library [] slots = (aee_success, slots)
  load_required library (s ∷ ss) slots =
      let (err, slots') = load_symbol library s slots in
      let rest = load_required library ss slots' in if nonzero err then (err, slots') else rest

  -- The four places, in their order.
  unfoldable pub or_else : Option ℕ → (Sys w → Option ℕ × Sys w) → Sys w → Option ℕ × Sys w
  or_else none next sys = next sys
  or_else (some library) next sys = (some library, sys)

  unfoldable pub find_library : Sys w → Option ℕ × Sys w
  find_library sys =
      let (l₁, sys₁) = load_from_env w sys in
      let (l₂, sys₂) = or_else l₁ (load_from_service w (codes "qcnspmcdm")) sys₁ in
      let (l₃, sys₃) = or_else l₂ (load_from_service w (codes "qcadsprpc")) sys₂ in
      or_else l₃ (load_library w (codes "libcdsprpc.dll")) sys₃

  -- With the library loaded
  unfoldable pub load_slots : ℕ → Slots → ℤ × Slots
  load_slots library slots =
      let (err, slots') = load_required library required slots in
      if nonzero err
      then (err, slots')
      else (aee_success, set_slot alloc2 (w.get_proc_address library alloc2) slots')

  unfoldable pub ensure_cdsprpc_loaded : Loader → Sys w → ℤ × Loader × Sys w
  ensure_cdsprpc_loaded l sys =
      let (library, sys') = find_library sys in
      if l.initialized then (l.init_status, l, sys) else elim library [
        | none ↦ (
          w.eunabletoload,
          record l { initialized = true; init_status = w.eunabletoload; cdsprpc = none },
          sys',
        )
        | some handle ↦
            let (err, slots) = load_slots handle l.slots in
            (
              err,
              record {
                initialized = true;
                init_status = err;
                cdsprpc = some handle;
                slots = slots;
              },
              sys',
            )
      ]

  -- `rpcmem_init`; `rpcmem_deinit` does nothing.
  unfoldable pub rpcmem_init : Loader → Sys w → Loader × Sys w
  rpcmem_init l sys = let (err, l', sys') = ensure_cdsprpc_loaded l sys in (l', sys')

  -- A call through a pointer
  unfoldable pub call_through : Option ℕ → Call → Loader → Sys w → Option (ℤ × Loader × Sys w)
  call_through none c l sys = none
  call_through (some p) c l sys =
      let (result, world) = w.call p c sys.world in some (result, l, record sys { world = world })

  -- What the functions have in common: the pointer they call, and what they return where the loading
  -- failed with an error.
  unfoldable pub guarded : Symbol → (ℤ → ℤ) → Call → Loader → Sys w → Option (ℤ × Loader × Sys w)
  guarded s on_error c l sys =
      let (err, l', sys') = ensure_cdsprpc_loaded l sys in
      if nonzero err then some (on_error err, l', sys') else call_through (l'.slots s) c l' sys'

  abbrev pub returned : ℤ → ℤ
  returned err = err

  abbrev pub null : ℤ → ℤ
  null err = pos 0

  unfoldable pub remote_handle64_open : List ℕ → ℕ → Loader → Sys w → Option (ℤ × Loader × Sys w)
  remote_handle64_open name ph = guarded handle64_open returned (call_open name ph)

  unfoldable pub remote_handle64_invoke : ℕ → ℕ → ℕ → Loader → Sys w → Option (ℤ × Loader × Sys w)
  remote_handle64_invoke h scalars pra =
      guarded handle64_invoke returned (call_invoke h scalars pra)

  unfoldable pub remote_handle64_close : ℕ → Loader → Sys w → Option (ℤ × Loader × Sys w)
  remote_handle64_close h = guarded handle64_close returned (call_close h)

  unfoldable pub remote_handle_control : ℕ → ℕ → ℕ → Loader → Sys w → Option (ℤ × Loader × Sys w)
  remote_handle_control req payload datalen =
      guarded handle_control returned (call_handle_control req payload datalen)

  unfoldable pub remote_handle64_control :
      ℕ → ℕ → ℕ → ℕ → Loader → Sys w → Option (ℤ × Loader × Sys w)
  remote_handle64_control h req payload datalen =
      guarded handle64_control returned (call_handle64_control h req payload datalen)

  unfoldable pub remote_session_control : ℕ → ℕ → ℕ → Loader → Sys w → Option (ℤ × Loader × Sys w)
  remote_session_control req payload datalen =
      guarded session_control returned (call_session_control req payload datalen)

  unfoldable pub rpcmem_alloc : ℤ → ℕ → ℤ → Loader → Sys w → Option (ℤ × Loader × Sys w)
  rpcmem_alloc heapid flags size = guarded alloc null (call_alloc heapid flags size)

  -- `INT32_MAX` is 2^31 - 1.
  unfoldable pub rpcmem_alloc2 : ℤ → ℕ → ℕ → Loader → Sys w → Option (ℤ × Loader × Sys w)
  rpcmem_alloc2 heapid flags size l sys =
      let (err, l', sys') = ensure_cdsprpc_loaded l sys in
      if nonzero err then some (pos 0, l', sys') else elim (l'.slots alloc2) [
        | some p ↦ call_through (some p) (call_alloc2 heapid flags size) l' sys'
        | none ↦
            if ltb (2 ^ 31 - 1) size
            then some (pos 0, l', sys')
            else call_through (l'.slots alloc) (call_alloc heapid flags (pos size)) l' sys'
      ]

  -- It has no result: the number is without meaning.
  unfoldable pub rpcmem_free : ℕ → Loader → Sys w → Option (ℤ × Loader × Sys w)
  rpcmem_free po = guarded free null (call_free po)

  unfoldable pub rpcmem_to_fd : ℕ → Loader → Sys w → Option (ℤ × Loader × Sys w)
  rpcmem_to_fd po = guarded to_fd (λ err. negsuc 0) (call_to_fd po)

  -- The function of each call.
  unfoldable pub serve : Call → Loader → Sys w → Option (ℤ × Loader × Sys w)
  serve (call_open name ph) = remote_handle64_open name ph
  serve (call_invoke h scalars pra) = remote_handle64_invoke h scalars pra
  serve (call_close h) = remote_handle64_close h
  serve (call_handle_control req payload datalen) = remote_handle_control req payload datalen
  serve (call_handle64_control h req payload datalen) =
      remote_handle64_control h req payload datalen
  serve (call_session_control req payload datalen) = remote_session_control req payload datalen
  serve (call_alloc heapid flags size) = rpcmem_alloc heapid flags size
  serve (call_alloc2 heapid flags size) = rpcmem_alloc2 heapid flags size
  serve (call_free po) = rpcmem_free po
  serve (call_to_fd po) = rpcmem_to_fd po
