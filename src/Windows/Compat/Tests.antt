-- ===== src/Windows/Compat/Tests.antt =====
-- A counter of 10 MHz, a thread that is not begun, and a path with backslashes.
use cdsp_peak.Base.{
  ℕ, ◌*◌, ◌/◌, ◌+◌, ◌≡◌, ◌<◌, inl, inr, refl, arith, map, true, false, some, List, [], ◌∷◌, ◌++◌,
  codes,
}
use cdsp_peak.Base.Int.{pos, negsuc}
use cdsp_peak.Host.ExeDir.{Errno, cut_last, executable_dir}
use cdsp_peak.Windows.Service.{backslash}
use cdsp_peak.Windows.Compat.{Errors, slashed, setenv}
use cdsp_peak.Windows.Compat.Laws.{own_path, executable_dir-own_path}
use cdsp_peak.Windows.Compat.Clock.{
  Clock, Timespec, clock_gettime, Keeps, nanoseconds, clock_gettime_lem,
}
use cdsp_peak.Windows.Compat.Threads.{
  ThreadErrors, Start, pthread_create, IsOneThread, pthread_create-IsOneThread,
}

abbrev unread : Clock
unread = record { initialized = false; frequency = 0 }

clock_gettime_lem_example :
    (t : Timespec) × (c : Clock) × (clock_gettime (some 10000000) (some 123456789) true unread
      ≡ some (pos 0, some t, c))
    × Keeps 10000000 c
    × (nanoseconds t ≡ 123456789 * 1000000000 / 10000000)
    × (t.tv_nsec < 1000000000)
clock_gettime_lem_example =
    clock_gettime_lem 123456789 10000000 unread (omega arith) (omega arith) (λ e. absurd cc)

abbrev errors : ThreadErrors
errors = record {
  einval = pos 22;
  enomem = pos 12;
  eagain = pos 11;
  einval_error = refl;
  enomem_error = refl;
  eagain_error = refl;
}

abbrev start : Start
start = record { routine = 100; arg = 200 }

pthread_create-IsOneThread_example :
    IsOneThread errors start [] (pthread_create errors true true true (inl (pos 0)) start [])
pthread_create-IsOneThread_example =
    pthread_create-IsOneThread errors true true true (inl (pos 0)) start []

abbrev text_errors : Errors
text_errors = record { einval = pos 22; enoent = pos 2; enametoolong = pos 36 }

abbrev host_errno : Errno
host_errno = record {
  einval = negsuc 21;
  enametoolong = negsuc 35;
  enomem = negsuc 11;
  enotsup = negsuc 94;
  enomem_error = refl;
}

abbrev directory : List ℕ
directory = codes "C:" ++ (backslash ∷ codes "tools")

executable_dir-own_path_example :
    executable_dir host_errno
      (own_path text_errors (λ n. directory ++ (backslash ∷ codes "a.exe")))
      4096
    ≡ inr (cut_last (map slashed directory, codes "a.exe"))
executable_dir-own_path_example =
    executable_dir-own_path host_errno text_errors (λ n. directory ++ (backslash ∷ codes "a.exe"))
      4096 directory (codes "a.exe") refl (refl, (refl, (refl, (refl, (refl, _)))))
      (refl, (refl, (refl, (refl, (refl, _))))) (omega arith)

kept :
    setenv text_errors
      (λ name s. some (codes "x"))
      (λ name value s. (pos 0, s + 1))
      (some (codes "ADSP_LIBRARY_PATH"))
      (some (codes "y"))
      false
      0
    ≡ (pos 0, 0)
unfolding setenv
kept = refl
