-- ===== src/Host/Workers/Checksum.antt =====
-- The checksum of a measurement tells workers apart.
use cdsp_peak.Base.{
  ℕ, ◌+◌, ◌^◌, ◌<◌, ◌≡◌, ◌≢◌, refl, sym, ap, ◌∙◌, arith, false, List, [], ◌∷◌, ◌++◌, All,
}
use cdsp_peak.Base.Int.{ℤ, nonzero}
use cdsp_peak.Fnv.{fnv_step-lt, fnv_step-inj_sum, fnv_step-inj_word}
use cdsp_peak.Host.Workers.{Worker, BenchResult, mixed_word, mix_checksum, joined, collect}
use cdsp_peak.Host.Workers.Laws.{collect_next}

-- The checksums of the workers mixed in from worker `i` on.
abbrev mix_workers : ℕ → ℕ → List Worker → ℕ
mix_workers i sum [] = sum
mix_workers i sum (w ∷ ws) = mix_workers (i + 1) (mix_checksum sum w.checksum i) ws

abbrev pub Succeeded : List Worker → Type 0
Succeeded ws = All (λ w. nonzero w.err ≡ false) ws

collect-mix_workers :
    (i : ℕ) (ws : List Worker) (r : BenchResult)
    → Succeeded ws
    → (collect i ws r).1.checksum ≡ mix_workers i r.checksum ws
unfolding collect
collect-mix_workers i [] r h = refl
collect-mix_workers i (w ∷ ws) r (good, h) =
    ap (λ (c : ℤ × BenchResult). c.1.checksum) (collect_next i w ws r good)
    ∙ collect-mix_workers (i + 1) ws (joined i w r) h

mixed_word-inj : (x y i : ℕ) → x < 2 ^ 64 → y < 2 ^ 64 → mixed_word x i ≡ mixed_word y i → x ≡ y
mixed_word-inj x y i hx hy e = omega arith

mix_workers-inj_sum :
    (i s t : ℕ) (ws : List Worker)
    → s < 2 ^ 64
    → t < 2 ^ 64
    → mix_workers i s ws ≡ mix_workers i t ws
    → s ≡ t
unfolding mix_checksum
mix_workers-inj_sum i s t [] hs ht e = e
mix_workers-inj_sum i s t (w ∷ ws) hs ht e =
    fnv_step-inj_sum s t (mixed_word w.checksum i) hs ht (omega arith)
      (mix_workers-inj_sum (i + 1) _ _ ws (fnv_step-lt s _) (fnv_step-lt t _) e)

mix_workers_detects :
    (i sum : ℕ) (pre : List Worker) (w w' : Worker) (rest : List Worker)
    → sum < 2 ^ 64
    → w.checksum < 2 ^ 64
    → w'.checksum < 2 ^ 64
    → w.checksum ≢ w'.checksum
    → mix_workers i sum (pre ++ (w ∷ rest)) ≢ mix_workers i sum (pre ++ (w' ∷ rest))
unfolding mix_checksum
mix_workers_detects i sum [] w w' rest hs hw hw' ne e =
    let step =
      mix_workers-inj_sum (i + 1) _ _ rest (fnv_step-lt sum _)
        (fnv_step-lt sum (mixed_word w'.checksum i)) e in
    let same =
      fnv_step-inj_word sum (mixed_word w.checksum i) (mixed_word w'.checksum i) hs (omega arith)
        (omega arith) step in
    ne (mixed_word-inj w.checksum w'.checksum i hw hw' same)
mix_workers_detects i sum (p ∷ pre) w w' rest hs hw hw' ne e =
    mix_workers_detects (i + 1) _ pre w w' rest (fnv_step-lt sum _) hw hw' ne e

-- Where all workers succeed, two runs whose workers differ in the checksum of one of them report
-- different checksums.
pub collect_detects :
    (i : ℕ) (r : BenchResult) (pre : List Worker) (w w' : Worker) (rest : List Worker)
    → Succeeded (pre ++ (w ∷ rest))
    → Succeeded (pre ++ (w' ∷ rest))
    → r.checksum < 2 ^ 64
    → w.checksum < 2 ^ 64
    → w'.checksum < 2 ^ 64
    → w.checksum ≢ w'.checksum
    → (collect i (pre ++ (w ∷ rest)) r).1.checksum ≢ (collect i (pre ++ (w' ∷ rest)) r).1.checksum
collect_detects i r pre w w' rest ok ok' hr hw hw' ne e =
    mix_workers_detects i r.checksum pre w w' rest hr hw hw' ne (
      sym (collect-mix_workers i (pre ++ (w ∷ rest)) r ok)
      ∙ e
      ∙ collect-mix_workers i (pre ++ (w' ∷ rest)) r ok')
