-- ===== src/Host/Main/System.antt =====
-- What `main` of host/cdsp_peak.c calls: FastRPC and the operating system, parameters of the model, and
-- the trace of what it does with them.
use cdsp_peak.Base.{ℕ, Bool, true, Option, List, ◌∷◌, ◌⊎◌, ◌≡◌}
use cdsp_peak.Base.Int.{ℤ, nonzero}
use cdsp_peak.Aee.{AeeCodes}
use cdsp_peak.Host.Arch.{Domains}
use cdsp_peak.Host.ExeDir.{Errno}
use cdsp_peak.Host.Options.{Options}
use cdsp_peak.Host.Power.{SetPower}
use cdsp_peak.Host.Scenarios.{ComputeScenario, HmxScenario, MemScenario}
use cdsp_peak.Host.Calibrate.{Measure}

-- The attributes that `DSPRPC_GET_DSP_INFO` is asked for.
pub data Capability : Type 0 where
  unsigned_pd_support arch_ver hvx_support_64b hvx_support_128b : Capability
  vtcm_page vtcm_count hmx_support_depth hmx_support_spatial : Capability

-- The requests of `remote_session_control`, with the fields of their structs: a domain, and whether
-- to enable.
pub data SessionRequest : Type 0 where
  process_kill : ℤ → SessionRequest
  unsigned_module : ℤ → ℤ → SessionRequest

-- The three HMX buffers, 0 where there is none.
pub record HmxBuffers : Type 0 where
  pub activation : ℕ
  pub weight : ℕ
  pub output : ℕ

-- What `main` allocates with `calloc`, and the text of `make_uri`.
pub data Block : Type 0 where
  uri_block handles_block srcs_block dsts_block : Block

pub record Driver : Type 1 where
  pub State : Type 0
  -- The constants of the headers, and the C library's conversions in base 0
  pub aee : AeeCodes
  pub errno : Errno
  pub domains : Domains
  pub strtol : List ℕ → ℤ × List ℕ
  pub strtoull : List ℕ → ℕ × List ℕ
  -- `readlink` on /proc/self/exe, `access`, `setenv`, `getenv("CDSP_PEAK_URI")`
  pub readlink : State → ℕ → ℤ ⊎ List ℕ
  pub readable : State → List ℕ → Bool
  pub setenv : List ℕ → List ℕ → State → State
  pub uri_base : State → Option (List ℕ)
  -- Whether there are so many bytes for a block.
  pub heap_there : State → Block → ℕ → Bool
  -- FastRPC: `remote_session_control`, and `remote_handle_control` with `DSPRPC_GET_DSP_INFO`, a domain
  -- and an attribute, which gives the error and the capability in the request.
  pub remote_session_control : SessionRequest → State → ℤ × State
  pub remote_handle_control : ℕ → Capability → State → ℤ × ℕ × State
  -- The stubs: `cdsp_peak_open` gives the result and what the handle holds afterwards.
  pub open_handle : List ℕ → State → ℤ × ℕ × State
  pub close_handle : ℕ → State → State
  pub set_power : SetPower State
  pub get_info : ℕ → State → ℤ × ℤ × State
  -- Shared memory, and writing to it
  pub rpcmem_alloc : ℕ → State → ℕ × State
  pub rpcmem_free : ℕ → State → State
  pub write : ℕ → List ℕ → State → State
  -- The measurements, which take the time of threads and calls.
  pub measure_rpc : Options → List ℕ → Measure State
  pub measure_compute : Options → List ℕ → ComputeScenario → Measure State
  pub measure_hmx : Options → ℕ → HmxScenario → HmxBuffers → Measure State
  pub measure_mem : Options → List ℕ → MemScenario → List ℕ → List ℕ → ℕ → Measure State

-- A failed `cdsp_peak_open` leaves the handle at the 0 that `calloc` put there.
abbrev pub LeavesZero : Driver → Type 0
LeavesZero d =
    (uri : List ℕ) (s : d.State)
    → let (err, handle, s') = d.open_handle uri s in nonzero err ≡ true → handle ≡ 0

-- What `main` takes and has to give back.
pub data Item : Type 0 where
  handle : ℕ → Item
  buffer : ℕ → Item
  block : Block → Item

-- A benchmark.
pub data Job : Type 0 where
  rpc_null : Job
  compute : ComputeScenario → Job
  compute_group : ℕ → Job
  hmx : HmxScenario → Job
  mem : MemScenario → Job

-- `taken` with 0 is a null pointer or a handle 0, which is nothing to give back.
pub data Event : Type 0 where
  taken : Item → Event
  given_back : Item → Event
  ran : Job → ℤ → Event

abbrev pub Trace : Type 0
Trace = List Event

-- The state of the program: the world that the driver changes, and the trace, the last event first.
pub record Sys (d : Driver) : Type 0 where
  pub world : d.State
  pub trace : Trace

abbrev pub note : {d : Driver} → Event → Sys d → Sys d
note e sys = record sys { trace = e ∷ sys.trace }
