-- ===== src/Host/Workers/Laws.antt =====
-- What a measurement over several workers reports.
use cdsp_peak.Base.{
  ℕ, ◌+◌, ◌*◌, ◌≤◌, ◌≡◌, ◌⊎◌, inl, inr, refl, sym, ap, arith, Bool, true, false, not, ◌&&◌, some,
  List, [], ◌∷◌, All, length, ltb, ◌==◌, u64, if◌then◌else◌, Bool-cases,
}
use mathlib.Core.Path.{subst}
use cdsp_peak.Base.Int.{ℤ, nonzero}
use cdsp_peak.Aee.{aee_success}
use cdsp_peak.Host.Workers.{
  Worker, BenchResult, joined, initial_result, collect, create_threads, measure_threads,
}

-- Every worker returned success, and took no more cycles than are reported.
abbrev pub Covers : ℕ → List Worker → Type 0
Covers cycles workers = All (λ w. (nonzero w.err ≡ false) × (w.cycles ≤ cycles)) workers

max_cycles-le : (a b : ℕ) → a ≤ (if ltb a b then b else a)
max_cycles-le a b = ground arith

max_cycles-le_new : (a b : ℕ) → b ≤ (if ltb a b then b else a)
max_cycles-le_new a b = ground arith

-- An error, or the workers behind `i` are covered and the count is kept.
abbrev IsCollected : List Worker → BenchResult → ℤ × BenchResult → Type 0
IsCollected ws r c =
    (nonzero c.0 ≡ true)
    ⊎ ((c.0 ≡ aee_success) × (c.1.count ≡ r.count) × (r.cycles ≤ c.1.cycles) × Covers c.1.cycles ws)

collect_stop :
    (i : ℕ) (w : Worker) (ws : List Worker) (r : BenchResult)
    → nonzero w.err ≡ true
    → collect i (w ∷ ws) r ≡ (w.err, r)
unfolding collect
collect_stop i w ws r bad = rw bad refl

pub collect_next :
    (i : ℕ) (w : Worker) (ws : List Worker) (r : BenchResult)
    → nonzero w.err ≡ false
    → collect i (w ∷ ws) r ≡ collect (i + 1) ws (joined i w r)
unfolding collect
collect_next i w ws r good =
    ap (λ (b : Bool). if b then (w.err, r) else collect (i + 1) ws (joined i w r)) good

collect-IsCollected :
    (i : ℕ) (ws : List Worker) (r : BenchResult) → IsCollected ws r (collect i ws r)
unfolding collect
collect-IsCollected i [] r = inr (refl, refl, omega arith, _)
collect-IsCollected i (w ∷ ws) r = elim (Bool-cases (nonzero w.err)) [
  | inl bad ↦ subst (IsCollected (w ∷ ws) r) (sym (collect_stop i w ws r bad)) (inl bad)
  | inr good ↦
      subst (IsCollected (w ∷ ws) r) (sym (collect_next i w ws r good))
        (elim (collect-IsCollected (i + 1) ws (joined i w r)) [
          | inl bad ↦ inl bad
          | inr (ok, count, more, covers) ↦ inr (
            ok,
            count,
            omega (arith, max_cycles-le r.cycles w.cycles),
            ((good, omega (arith, max_cycles-le_new r.cycles w.cycles)), covers),
          )
        ])
]

-- Whatever memory, the creation of the threads and the workers do, a measurement either returns an
-- error, or every worker returned success, the count is the work of all workers modulo 2 ^ 64, and
-- the cycles reported are no fewer than any worker's. `-ENOMEM` is assumed not to be 0.
pub measure_threads_lem :
    (enomem : ℤ) (args_there threads_there : Bool) (create : ℕ → ℤ) (per_thread : ℕ)
    (workers : List Worker)
    → nonzero enomem ≡ true
    → let (err, result) =
        measure_threads enomem args_there threads_there create per_thread workers in
      (nonzero err ≡ true)
      ⊎ ((err ≡ aee_success)
          × ((r : BenchResult) × (result ≡ some r)
              × (r.count ≡ u64 (per_thread * length workers))
              × Covers r.cycles workers))
unfolding measure_threads
measure_threads_lem enomem args_there threads_there create per_thread workers short =
    elim (Bool-cases (not args_there)) [
      | inl no_args ↦ rw no_args (inl short)
      | inr args ↦ elim (Bool-cases (ltb 1 (length workers) && not threads_there)) [
        | inl no_threads ↦ rw (args, no_threads) (inl short)
        | inr threads ↦
            let err =
              if length workers == 1
              then aee_success
              else create_threads enomem args_there threads_there create 0 workers in
            let start = initial_result (u64 (per_thread * length workers)) in
            elim (Bool-cases (nonzero err)) [
              | inl bad ↦ rw (args, threads, bad) (inl bad)
              | inr good ↦
                  rw (args, threads, good)
                    (elim (collect-IsCollected 0 workers start) [
                      | inl bad ↦ inl bad
                      | inr (ok, count, more, covers) ↦
                          inr (ok, ((collect 0 workers start).1, refl, count, covers))
                    ])
            ]
      ]
    ]
