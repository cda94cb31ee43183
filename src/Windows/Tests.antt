-- ===== src/Windows/Tests.antt =====
-- A Windows where the second service is there and the library has no `rpcmem_alloc2`.
use cdsp_peak.Base.{
  ℕ, ◌+◌, ◌≡◌, refl, none, some, List, [], ◌∷◌, ◌++◌, if◌then◌else◌, codes, same_text, split_last,
}
use cdsp_peak.Base.Int.{pos}
use cdsp_peak.Windows.System.{Windows, alloc2, sc_service, call_alloc2, Sys}
use cdsp_peak.Windows.Service.{
  backslash, system_root, replace_system_root, dll_path, load_from_service,
}
use cdsp_peak.Windows.Service.Laws.{Settles, load_from_service-Settles}
use cdsp_peak.Windows.Loader.{at_start, ensure_cdsprpc_loaded, serve}
use cdsp_peak.Windows.Loader.Laws.{ensure_cdsprpc_loaded-again}
use cdsp_peak.Windows.Loader.Serve.{Answers, serve-Answers}

abbrev driver : List ℕ
driver = codes "/System32/drivers"

abbrev without_alloc2 : Windows
without_alloc2 = record {
  State = ℕ;
  aee = record {
    ebadparm = pos 14;
    eunsupported = pos 20;
    enomemory = pos 2;
    efailed = pos 1;
    ebadparm_error = refl;
    eunsupported_error = refl;
    enomemory_error = refl;
    efailed_error = refl;
  };
  eunabletoload = pos 4;
  eunabletoload_error = refl;
  dupenv = λ s. none;
  multi_byte_to_wide_char = λ text room. some text;
  windir = λ s. some (codes "C:");
  load_library = λ path s. (some 1000, s + 1);
  get_proc_address = λ library s. elim s [ alloc2 ↦ none | _ ↦ some 2000 ];
  open_sc_manager = λ s. (some 1, s);
  open_service = λ m name s. (if same_text name (codes "qcadsprpc") then some 2 else none, s);
  query_needed = λ h s. some 300;
  local_alloc = λ n s. some 3;
  query_config = λ h n s. some (system_root ++ (driver ++ (backslash ∷ codes "qcadsprpc.sys")));
  call = λ p c s. (pos 7, s + 1);
}

abbrev fresh : Sys without_alloc2
fresh = record { world = 0; trace = [] }

load_from_service-Settles_example :
    Settles without_alloc2 sc_service fresh
      (load_from_service without_alloc2 (codes "qcadsprpc") fresh).1
load_from_service-Settles_example =
    load_from_service-Settles without_alloc2 sc_service (codes "qcadsprpc") fresh

ensure_cdsprpc_loaded-again_example :
    let (err, l, sys) = ensure_cdsprpc_loaded without_alloc2 (at_start without_alloc2) fresh in
    ensure_cdsprpc_loaded without_alloc2 l sys ≡ (err, l, sys)
ensure_cdsprpc_loaded-again_example =
    ensure_cdsprpc_loaded-again without_alloc2 (at_start without_alloc2) fresh

serve-Answers_example :
    Answers without_alloc2
      (serve without_alloc2 (call_alloc2 (pos 25) 1 4096) (at_start without_alloc2) fresh)
serve-Answers_example =
    serve-Answers without_alloc2 (call_alloc2 (pos 25) 1 4096) (at_start without_alloc2) fresh
      (λ e. absurd cc)

beside_the_driver :
    dll_path (some (codes "C:")) (system_root ++ (driver ++ (backslash ∷ codes "qcadsprpc.sys")))
    ≡ some (codes "C:/System32/drivers" ++ (backslash ∷ codes "libcdsprpc.dll"))
unfolding dll_path replace_system_root same_text split_last
beside_the_driver = refl
