-- ===== src/Dsp/MemBench/Laws.antt =====
-- What the memory benchmarks leave in the destination.
use cdsp_peak.Base.{
  ℕ, zero, suc, ◌*◌, ◌≤◌, ◌≡◌, refl, sym, ap, ◌∙◌, arith, List, [], ◌++◌, length, take, drop,
  length-take, length-drop, take-add, drop-drop, drop-append_exact, length-append, ap₂,
}
use mathlib.Core.List.{append_assoc}
use cdsp_peak.Dsp.Hvx.{Hvx, KeepsBytes, vector_bytes}
use cdsp_peak.Dsp.Kernels.{iterate}
use cdsp_peak.Dsp.MemBench.{
  read_pass, read_passes, write_pass, write_passes, copy_pass, copy_passes,
}

module _ (v : Hvx) (keeps : KeepsBytes v) where
  store-load_take :
      (src : List ℕ) → 128 ≤ length src → v.store (v.load (take vector_bytes src)) ≡ take 128 src
  store-load_take src h = keeps.store-load (take 128 src) (omega (arith, length-take 128 src))

  -- A pass copies whole vectors: the first `128 * n` bytes, where both buffers are long enough.
  copy_pass-take :
      (n : ℕ) (src dst : List ℕ) (acc : v.Vec)
      → n * 128 ≤ length src
      → n * 128 ≤ length dst
      → (copy_pass v n src dst acc).0 ≡ take (n * 128) src ++ drop (n * 128) dst
  unfolding copy_pass
  copy_pass-take zero src dst acc hs hd = refl
  copy_pass-take (suc n) src dst acc hs hd =
      let rest =
        copy_pass-take n (drop 128 src) (drop 128 dst)
          (v.vadd_w acc (v.load (take vector_bytes src))) (omega (arith, length-drop 128 src))
          (omega (arith, length-drop 128 dst)) in
      rw (store-load_take src (omega arith), rest)
        (sym (
            append_assoc (take 128 src) (take (n * 128) (drop 128 src))
              (drop (n * 128) (drop 128 dst)))
          ∙ ap₂ ◌++◌ (take-add 128 (n * 128) src ∙ ap (λ j. take j src) (omega arith))
              (drop-drop (n * 128) 128 dst ∙ ap (λ j. drop j dst) (omega arith)))

  length-copied : (n : ℕ) (src : List ℕ) → n ≤ length src → length (take n src) ≡ n
  length-copied n src h = omega (arith, length-take n src)

  -- Any number of passes, one at least, leaves what one pass leaves.
  pub copy_passes-take :
      (r n : ℕ) (src dst : List ℕ) (acc : v.Vec)
      → n * 128 ≤ length src
      → n * 128 ≤ length dst
      → (copy_passes v (suc r) n src dst acc).0 ≡ take (n * 128) src ++ drop (n * 128) dst
  unfolding copy_passes
  copy_passes-take zero n src dst acc hs hd = copy_pass-take n src dst acc hs hd
  copy_passes-take (suc r) n src dst acc hs hd =
      let dst' = (copy_pass v n src dst acc).0 in
      let once : dst' ≡ take (n * 128) src ++ drop (n * 128) dst =
        copy_pass-take n src dst acc hs hd in
      let len = length-copied (n * 128) src hs in
      let long : n * 128 ≤ length dst' =
        omega (arith, ap length once, length-append (take (n * 128) src) (drop (n * 128) dst)) in
      copy_passes-take r n src dst' (copy_pass v n src dst acc).1 hs long
      ∙ ap (λ t. take (n * 128) src ++ t)
          (ap (drop (n * 128)) once
            ∙ drop-append_exact (n * 128) (take (n * 128) src) (drop (n * 128) dst) len)

  -- The copy adds up the vectors that a read adds up.
  copy_pass-read :
      (n : ℕ) (src dst : List ℕ) (acc : v.Vec)
      → (copy_pass v n src dst acc).1 ≡ read_pass v n src acc
  unfolding copy_pass read_pass
  copy_pass-read zero src dst acc = refl
  copy_pass-read (suc n) src dst acc =
      copy_pass-read n (drop vector_bytes src) (drop vector_bytes dst) _

  pub copy_passes-read :
      (r n : ℕ) (src dst : List ℕ) (acc : v.Vec)
      → (copy_passes v r n src dst acc).1 ≡ read_passes v r n src acc
  unfolding copy_passes read_passes
  copy_passes-read zero n src dst acc = refl
  copy_passes-read (suc r) n src dst acc =
      copy_passes-read r n src (copy_pass v n src dst acc).0 _
      ∙ ap (read_passes v r n src) (copy_pass-read n src dst acc)

  -- `n` copies of one stored vector.
  abbrev pub filled : ℕ → v.Vec → List ℕ
  filled zero value = []
  filled (suc n) value = v.store value ++ filled n value

  write_pass-filled :
      (n : ℕ) (value : v.Vec) (dst : List ℕ)
      → write_pass v n value dst ≡ filled n value ++ drop (n * 128) dst
  unfolding write_pass
  write_pass-filled zero value dst = refl
  write_pass-filled (suc n) value dst = rw (write_pass-filled n value (drop vector_bytes dst)) (
      sym (append_assoc (v.store value) (filled n value) (drop (n * 128) (drop 128 dst)))
      ∙ ap (λ t. (v.store value ++ filled n value) ++ t)
          (drop-drop (n * 128) 128 dst ∙ ap (λ j. drop j dst) (omega arith)))

  pub length-filled : (n : ℕ) (value : v.Vec) → length (filled n value) ≡ n * 128
  length-filled zero value = refl
  length-filled (suc n) value = omega (
    arith,
    length-append (v.store value) (filled n value),
    keeps.length-store value,
    length-filled n value,
  )

  -- Only the last pass is left: its value has been advanced once for each pass before it.
  pub write_passes-filled :
      (r n : ℕ) (step value : v.Vec) (dst : List ℕ)
      → write_passes v (suc r) n step value dst
        ≡ filled n (iterate r (λ x. v.vadd_w x step) value) ++ drop (n * 128) dst
  unfolding write_passes iterate
  write_passes-filled zero n step value dst = write_pass-filled n value dst
  write_passes-filled (suc r) n step value dst =
      let dst' = write_pass v n value dst in
      let len = length-filled n value in
      write_passes-filled r n step (v.vadd_w value step) dst'
      ∙ ap (λ t. filled n (iterate r (λ x. v.vadd_w x step) (v.vadd_w value step)) ++ t)
          (ap (drop (n * 128)) (write_pass-filled n value dst)
            ∙ drop-append_exact (n * 128) (filled n value) (drop (n * 128) dst) len)
