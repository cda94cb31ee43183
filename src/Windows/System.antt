-- ===== src/Windows/System.antt =====
-- What host/fastrpc_windows.c calls: Windows, and the library that it loads, parameters of the model.
use cdsp_peak.Base.{ℕ, ◌≡◌, true, Option, List, ◌∷◌}
use cdsp_peak.Base.Int.{ℤ, nonzero}
use cdsp_peak.Aee.{AeeCodes}

-- The functions of the library, by the names that `GetProcAddress` is given.
pub data Symbol : Type 0 where
  handle64_open handle64_invoke handle64_close handle_control handle64_control : Symbol
  session_control alloc alloc2 free to_fd : Symbol

-- A call of one of them, with its arguments. Pointers are addresses.
pub data Call : Type 0 where
  call_open : List ℕ → ℕ → Call
  call_invoke : ℕ → ℕ → ℕ → Call
  call_close : ℕ → Call
  call_handle_control : ℕ → ℕ → ℕ → Call
  call_handle64_control : ℕ → ℕ → ℕ → ℕ → Call
  call_session_control : ℕ → ℕ → ℕ → Call
  call_alloc : ℤ → ℕ → ℤ → Call
  call_alloc2 : ℤ → ℕ → ℕ → Call
  call_free : ℕ → Call
  call_to_fd : ℕ → Call

-- What `load_from_env` and `load_from_service` open and have to close.
pub data Resource : Type 0 where
  env_text sc_manager sc_service service_config : Resource

pub data Event : Type 0 where
  opened : Resource → Event
  closed : Resource → Event

pub record Windows : Type 1 where
  pub State : Type 0
  pub aee : AeeCodes
  -- `AEE_EUNABLETOLOAD`
  pub eunabletoload : ℤ
  pub eunabletoload_error : nonzero eunabletoload ≡ true
  -- `_dupenv_s` of CDSPRPC_DLL, `none` where it fails or there is none; `MultiByteToWideChar` with the
  -- room of the buffer; `windir`, where `GetEnvironmentVariableW` finds it
  pub dupenv : State → Option (List ℕ)
  pub multi_byte_to_wide_char : List ℕ → ℕ → Option (List ℕ)
  pub windir : State → Option (List ℕ)
  -- Null pointers and handles are `none`.
  pub load_library : List ℕ → State → Option ℕ × State
  pub get_proc_address : ℕ → Symbol → Option ℕ
  pub open_sc_manager : State → Option ℕ × State
  pub open_service : ℕ → List ℕ → State → Option ℕ × State
  -- `QueryServiceConfigW` without room: the size where it fails with `ERROR_INSUFFICIENT_BUFFER`; and
  -- with room: `lpBinaryPathName`
  pub query_needed : ℕ → State → Option ℕ
  pub local_alloc : ℕ → State → Option ℕ
  pub query_config : ℕ → ℕ → State → Option (List ℕ)
  -- A call through a function's address. Addresses and the results of `void` are numbers too.
  pub call : ℕ → Call → State → ℤ × State

-- The state and what was opened and closed, the last first.
pub record Sys (w : Windows) : Type 0 where
  pub world : w.State
  pub trace : List Event

abbrev pub note : {w : Windows} → Event → Sys w → Sys w
note e sys = record sys { trace = e ∷ sys.trace }
