-- ===== src/Windows/Service.antt =====
-- Where host/fastrpc_windows.c looks for the library: `load_from_env` and `load_from_service`.
pub mod Laws
use cdsp_peak.Base.{
  ℕ, ◌-◌, ◌*◌, Bool, true, false, Option, none, some, List, [], ◌∷◌, ◌++◌, length, take, drop, ltb,
  ◌==◌, if◌then◌else◌, codes, same_text, split_last,
}
use cdsp_peak.Windows.System.{
  Windows, Resource, env_text, sc_manager, sc_service, service_config, opened, closed, Sys, note,
}

abbrev pub backslash : ℕ
backslash = 92

-- The wide characters of `wchar_t wide[MAX_PATH * 4]` and the like.
abbrev pub path_room : ℕ
path_room = 260 * 4

-- What a copy with `_TRUNCATE` leaves in such a buffer.
abbrev pub truncated : List ℕ → List ℕ
truncated text = take (path_room - 1) text

abbrev pub system_root : List ℕ
system_root = backslash ∷ codes "SystemRoot"

-- `!wcsncmp(dll_path, L"\\SystemRoot", 11)`
abbrev pub under_system_root : List ℕ → Bool
under_system_root path = same_text (take 11 path) system_root

-- The driver's path with `\SystemRoot` replaced. Where there is no room, `swprintf_s` calls the handler
-- of invalid parameters, which by default ends the process; behind a handler that returns, it has left
-- an empty text, which is what this gives.
unfoldable pub replace_system_root : Option (List ℕ) → List ℕ → List ℕ
replace_system_root none path = path
replace_system_root (some windir) path =
    let replaced = windir ++ drop 11 path in
    if under_system_root path
    then truncated (if ltb (length replaced) path_room then replaced else [])
    else path

-- The path of the library beside the driver; `none` where there is no backslash.
unfoldable pub dll_path : Option (List ℕ) → List ℕ → Option (List ℕ)
dll_path windir binary =
    elim (split_last backslash (replace_system_root windir (truncated binary))) [
      | none ↦ none
      | some (before, behind) ↦ some (truncated (before ++ (backslash ∷ codes "libcdsprpc.dll")))
    ]

module _ (w : Windows) where
  -- `try_load_path`, and `LoadLibraryW` without its message
  unfoldable pub load_library : List ℕ → Sys w → Option ℕ × Sys w
  load_library path sys =
      let (handle, world) = w.load_library path sys.world in (handle, record sys { world = world })

  -- With a text that is there; `none` where it returns -1.
  unfoldable pub utf8_to_wide : List ℕ → ℕ → Option (List ℕ)
  utf8_to_wide src dst_len = if dst_len == 0 then none else w.multi_byte_to_wide_char src dst_len

  unfoldable pub load_from_env : Sys w → Option ℕ × Sys w
  load_from_env sys = elim (w.dupenv sys.world) [
    | none ↦ (none, sys)
    | some text ↦
        let sys₁ = note (opened env_text) sys in
        let (handle, sys₂) : Option ℕ × Sys w = elim (utf8_to_wide text path_room) [
          | none ↦ (none, sys₁)
          | some wide ↦ load_library wide sys₁
        ] in
        (handle, note (closed env_text) sys₂)
  ]

  -- The three variables that `out` looks at, and the path to load, if it comes to that.
  pub record Found : Type 0 where
    pub has_scm : Bool
    pub has_service : Bool
    pub has_config : Bool
    pub path : Option (List ℕ)

  abbrev pub found : Bool → Bool → Bool → Option (List ℕ) → Found
  found m s c path = record { has_scm = m; has_service = s; has_config = c; path = path }

  -- With the service open.
  unfoldable pub read_config : ℕ → Sys w → Found × Sys w
  read_config s sys = elim (w.query_needed s sys.world) [
    | none ↦ (found true true false none, sys)
    | some needed ↦ elim (w.local_alloc needed sys.world) [
      | none ↦ (found true true false none, sys)
      | some p ↦
          let sys₁ = note (opened service_config) sys in
          elim (w.query_config s needed sys.world) [
            | none ↦ (found true true true none, sys₁)
            | some binary ↦ (found true true true (dll_path (w.windir sys.world) binary), sys₁)
          ]
    ]
  ]

  -- With the manager open.
  unfoldable pub read_service : ℕ → List ℕ → Sys w → Found × Sys w
  read_service manager name sys =
      let (handle, world) = w.open_service manager name sys.world in
      elim handle [
        | none ↦ (found true false false none, record sys { world = world })
        | some s ↦ read_config s (note (opened sc_service) (record sys { world = world }))
      ]

  unfoldable pub find_path : List ℕ → Sys w → Found × Sys w
  find_path name sys =
      let (manager, world) = w.open_sc_manager sys.world in
      elim manager [
        | none ↦ (found false false false none, record sys { world = world })
        | some m ↦ read_service m name (note (opened sc_manager) (record sys { world = world }))
      ]

  abbrev pub close_if : Bool → Resource → Sys w → Sys w
  close_if there r sys = if there then note (closed r) sys else sys

  -- Behind `out`
  unfoldable pub close_found : Found → Sys w → Sys w
  close_found f sys =
      close_if f.has_scm sc_manager
        (close_if f.has_service sc_service (close_if f.has_config service_config sys))

  unfoldable pub load_from_service : List ℕ → Sys w → Option ℕ × Sys w
  load_from_service name sys =
      let (f, sys₁) = find_path name sys in
      let (handle, sys₂) : Option ℕ × Sys w = elim f.path [
        | none ↦ (none, sys₁)
        | some path ↦ load_library path sys₁
      ] in
      (handle, close_found f sys₂)
