-- ===== src/Windows/Compat/Threads.antt =====
-- `pthread_create` and `pthread_join` of host/pthread.h, over `malloc` and Win32 threads.
use cdsp_peak.Base.{
  ℕ, ◌≡◌, ◌⊎◌, inl, inr, refl, Bool, true, false, not, ◌||◌, Option, none, some, List, ◌∷◌, ◌==◌,
  if◌then◌else◌, Bool-cases,
}
use cdsp_peak.Base.Int.{ℤ, pos, nonzero}

-- `EINVAL`, `ENOMEM` and `EAGAIN`, which are not 0.
pub record ThreadErrors : Type 0 where
  pub einval : ℤ
  pub enomem : ℤ
  pub eagain : ℤ
  pub einval_error : nonzero einval ≡ true
  pub enomem_error : nonzero enomem ≡ true
  pub eagain_error : nonzero eagain ≡ true

-- `struct cdsp_peak_pthread_start`: addresses of the routine and its argument.
pub record Start : Type 0 where
  pub routine : ℕ
  pub arg : ℕ

-- What happens to start blocks and handles, and the calls of routines.
pub data Event : Type 0 where
  allocated : Start → Event
  freed : Start → Event
  called : ℕ → ℕ → Event
  waited_for : ℕ → Event
  closed : ℕ → Event

-- A thread is a handle, and the trampoline that will run with its block.
pub record Thread : Type 0 where
  pub handle : ℕ
  pub start : Start

-- `cdsp_peak_pthread_trampoline`, on a trace with the last event first.
unfoldable pub trampoline : Start → List Event → List Event
trampoline start tr = called start.routine start.arg ∷ freed start ∷ tr

module _ (errors : ThreadErrors) where
  -- Whether the pointers `thread` and `start_routine` are there, whether `malloc` succeeds, and the
  -- handle of `_beginthreadex`, or `errno` where it is 0: the result, the new thread and the trace.
  unfoldable pub pthread_create :
      Bool → Bool → Bool → ℤ ⊎ ℕ → Start → List Event → ℤ × Option Thread × List Event
  pthread_create thread_there routine_there memory_there begun start tr =
      if not thread_there || not routine_there
      then (errors.einval, none, tr)
      else if not memory_there
      then (errors.enomem, none, tr)
      else elim begun [
        | inr handle ↦
            (pos 0, some (record { handle = handle; start = start }), allocated start ∷ tr)
        | inl errno ↦ (
          if nonzero errno then errno else errors.eagain,
          none,
          freed start ∷ allocated start ∷ tr,
        )
      ]

  -- A handle 0 is refused.
  unfoldable pub pthread_join : ℕ → List Event → ℤ × List Event
  pthread_join handle tr =
      if handle == 0 then (errors.einval, tr) else (pos 0, closed handle ∷ waited_for handle ∷ tr)

  -- What becomes of a thread: its trampoline runs, if it was created.
  abbrev pub run_created : Option Thread → List Event → List Event
  run_created none tr = tr
  run_created (some t) tr = trampoline t.start tr

  -- The events of one call, the thread that it makes included, in front of a trace: an error, and the
  -- block freed if it was allocated; or success, the block freed once, and the routine called with its
  -- argument, once.
  abbrev pub IsOneThread : Start → List Event → ℤ × Option Thread × List Event → Type 0
  IsOneThread start tr (err, thread, tr') =
      ((nonzero err ≡ true)
        × ((run_created thread tr' ≡ tr)
            ⊎ (run_created thread tr' ≡ freed start ∷ allocated start ∷ tr)))
      ⊎ ((err ≡ pos 0)
          × (run_created thread tr'
              ≡ called start.routine start.arg ∷ freed start ∷ allocated start ∷ tr))

  created_or_not :
      (begun : ℤ ⊎ ℕ) (start : Start) (tr : List Event)
      → IsOneThread start tr (pthread_create true true true begun start tr)
  unfolding pthread_create trampoline
  created_or_not (inr handle) start tr = inr (refl, refl)
  created_or_not (inl errno) start tr = elim (Bool-cases (nonzero errno)) [
    | inl e ↦ rw (pthread_create, e) (inl (e, inr refl))
    | inr e ↦ rw (pthread_create, e) (inl (errors.eagain_error, inr refl))
  ]

  -- Whichever pointer is missing and whichever call fails: `pthread_create` reports an error, runs
  -- nothing and has freed the start block if it allocated one; or it reports success, and then the
  -- thread frees the block once and calls the routine once with its argument.
  pub pthread_create-IsOneThread :
      (thread_there routine_there memory_there : Bool) (begun : ℤ ⊎ ℕ) (start : Start)
      (tr : List Event)
      → IsOneThread start tr (pthread_create thread_there routine_there memory_there begun start tr)
  unfolding pthread_create
  pthread_create-IsOneThread true true true begun start tr = created_or_not begun start tr
  pthread_create-IsOneThread true true false begun start tr = inl (errors.enomem_error, inl refl)
  pthread_create-IsOneThread true false m begun start tr = inl (errors.einval_error, inl refl)
  pthread_create-IsOneThread false r m begun start tr = inl (errors.einval_error, inl refl)
