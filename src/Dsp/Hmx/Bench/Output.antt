-- ===== src/Dsp/Hmx/Bench/Output.antt =====
-- What `cdsp_peak_bench_hmx_int8` returns to the host.
use cdsp_peak.Base.{
  ℕ, ◌-◌, ◌≤◌, ◌≡◌, ◌⊎◌, inl, inr, refl, ap, ◌∙◌, arith, Bool, true, not, ◌||◌, none, some, List,
  length, drop, drop-drop, drop-append_long, replicate, length-append, length-drop,
  length-replicate, u32, ltb, Bool-cases,
}
use cdsp_peak.Base.Int.{ℤ, pos, nonzero, to_ℕ, not_positive}
use cdsp_peak.Aee.{AeeCodes, aee_success}
use cdsp_peak.Dsp.Hmx.Memory.{read_block, length-read_block}
use cdsp_peak.Dsp.Hmx.Resource.{HmxResource, hmx_resource_acquire}
use cdsp_peak.Dsp.Hmx.Modes.{HmxMode, mode_config, mode_number, decode_mode}
use cdsp_peak.Dsp.Hmx.Tiles.{Layout}
use cdsp_peak.Dsp.Hmx.Bench.{
  Device, Sys, Reply, reply, overwrite, probe_bytes, checksum_hmx_output, required_vtcm, fits,
  run_repeats, answer_probe, measure, bench_acquired, bench_mode, bench_hmx_int8,
}

-- `after` differs from `before` in its first `n` bytes at most.
abbrev pub PrefixOnly : ℕ → List ℕ → List ℕ → Type 0
PrefixOnly n before after = (length after ≡ length before) × (drop n after ≡ drop n before)

overwrite-PrefixOnly :
    (n : ℕ) (bytes buf : List ℕ)
    → length bytes ≤ n
    → length bytes ≤ length buf
    → PrefixOnly n buf (overwrite bytes buf)
overwrite-PrefixOnly n bytes buf h k = (
  omega (arith, length-append bytes (drop (length bytes) buf), length-drop (length bytes) buf),
  drop-append_long n bytes (drop (length bytes) buf) h
      ∙ drop-drop (n - length bytes) (length bytes) buf
      ∙ ap (λ j. drop j buf) (omega arith),
)

PrefixOnly-trans :
    (n : ℕ) (xs ys zs : List ℕ) → PrefixOnly n xs ys → PrefixOnly n ys zs → PrefixOnly n xs zs
PrefixOnly-trans n xs ys zs h k = (k.0 ∙ h.0, k.1 ∙ h.1)

probe_written : (m : HmxMode) → (mode_config m).is_probe ≡ true → (mode_config m).written_len ≡ 16
unfolding mode_config
probe_written HmxMode.int8_ub e = cc
probe_written m e = ground arith

-- The number of a mode is decoded as that mode.
pub decode_mode-number : (m : HmxMode) → decode_mode (pos (mode_number m)) ≡ some m
unfolding decode_mode
decode_mode-number HmxMode.int8_ub = refl
decode_mode-number m = refl

probe-length : (res : HmxResource) → length (probe_bytes res) ≡ 16
probe-length res = refl

module _ (codes : AeeCodes) (d : Device) where
  -- Success comes with the results, an error without, and the output changed in its prefix at most.
  pub record IsAnswer (m : HmxMode) (output : List ℕ) (r : Reply codes d) : Type 0 where
    pub kept : PrefixOnly (mode_config m).written_len output r.output
    pub result :
        ((r.ret ≡ aee_success)
          × (c : ℕ) × (r.outs ≡ some (c, checksum_hmx_output r.output (mode_config m).written_len)))
        ⊎ ((nonzero r.ret ≡ true) × (r.outs ≡ none))

  refused :
      (m : HmxMode) (output output' : List ℕ) (code : ℤ) (s : Sys codes d)
      → nonzero code ≡ true
      → PrefixOnly (mode_config m).written_len output output'
      → IsAnswer m output (reply codes d code output' none s)
  refused m output output' code s e p = record { kept = p; result = inr (e, refl) }

  IsAnswer-trans :
      (m : HmxMode) (output output' : List ℕ) (r : Reply codes d)
      → PrefixOnly (mode_config m).written_len output output'
      → IsAnswer m output' r
      → IsAnswer m output r
  IsAnswer-trans m output output' r p a = record {
    kept = PrefixOnly-trans _ output output' r.output p a.kept;
    result = a.result;
  }

  -- `memset(output, 0, written_len)`
  zeroed-PrefixOnly :
      (n : ℕ) (output : List ℕ)
      → n ≤ length output
      → PrefixOnly n output (overwrite (replicate n 0) output)
  zeroed-PrefixOnly n output h =
      overwrite-PrefixOnly n (replicate n 0) output (omega (arith, length-replicate {A = ℕ} n 0))
        (omega (arith, length-replicate {A = ℕ} n 0))

  long-zeroed :
      (n : ℕ) (output : List ℕ) → n ≤ length output → n ≤ length (overwrite (replicate n 0) output)
  long-zeroed n output h = omega (arith, zeroed-PrefixOnly n output h)

  measure-IsAnswer :
      (m : HmxMode) (l : Layout) (res : HmxResource) (repeats : ℕ) (output : List ℕ)
      (s : Sys codes d)
      → (mode_config m).written_len ≤ length output
      → IsAnswer m output (measure codes d m l res repeats output s)
  unfolding measure
  measure-IsAnswer m l res repeats output s h =
      let n = (mode_config m).written_len in
      let (err, unit, mem) = run_repeats codes d repeats m l (s.unit, s.memory) in
      let whole = length-read_block mem l.output n in
      elim (Bool-cases (nonzero err)) [
        | inl e ↦ rw e (refused m output output err _ e (refl, refl))
        | inr e ↦ rw e (record {
          kept =
              overwrite-PrefixOnly n (read_block mem l.output n) output (omega arith) (omega arith);
          result = inl (refl, _, refl);
        })
      ]

  answer_probe-IsAnswer :
      (m : HmxMode) (res : HmxResource) (output : List ℕ) (s : Sys codes d)
      → (mode_config m).is_probe ≡ true
      → (mode_config m).written_len ≤ length output
      → IsAnswer m output (answer_probe codes d (mode_config m) res output s)
  unfolding answer_probe
  answer_probe-IsAnswer m res output s e h =
      let n = (mode_config m).written_len in
      let zeroed = overwrite (replicate n 0) output in
      let kept = zeroed-PrefixOnly n output h in
      let len = probe_written m e in
      record {
        kept =
            PrefixOnly-trans n output zeroed (overwrite (probe_bytes res) zeroed) kept
              (overwrite-PrefixOnly n (probe_bytes res) zeroed (omega arith) (omega arith));
        result = inl (refl, _, refl);
      }

  bench_acquired-IsAnswer :
      (m : HmxMode) (res : HmxResource) (repeats : ℕ) (activation weight output : List ℕ)
      (s : Sys codes d)
      → (mode_config m).written_len ≤ length output
      → IsAnswer m output (bench_acquired codes d m res repeats activation weight output s)
  unfolding bench_acquired
  bench_acquired-IsAnswer m res repeats activation weight output s h =
      elim (Bool-cases (mode_config m).is_probe) [
        | inl e ↦ simp e (answer_probe-IsAnswer m res output s e h)
        | inr e ↦ rw e (elim (Bool-cases (fits (mode_config m) res)) [
          | inl f ↦ rw f (
              IsAnswer-trans m output _ _ (zeroed-PrefixOnly _ output h) (
                measure-IsAnswer m _ res repeats _ _
                  (long-zeroed (mode_config m).written_len output h)))
          | inr f ↦
              rw f (refused m output output codes.enomemory _ codes.enomemory_error (refl, refl))
        ])
      ]

  bench_mode-IsAnswer :
      (m : HmxMode) (repeats : ℕ) (activation weight output : List ℕ) (s : Sys codes d)
      → IsAnswer m output (bench_mode codes d m repeats activation weight output s)
  unfolding bench_mode
  bench_mode-IsAnswer m repeats activation weight output s =
      let c = mode_config m in
      let short =
        ltb (length activation) c.activation_vtcm_len || ltb (length weight) c.weight_vtcm_len in
      let acquired =
        hmx_resource_acquire codes d.api (u32 (required_vtcm c)) c.use_cached c.use_lock s.trace in
      elim (Bool-cases short) [
        | inl e ↦ rw e (refused m output output codes.ebadparm _ codes.ebadparm_error (refl, refl))
        | inr e ↦ rw e (elim (Bool-cases (ltb (length output) c.written_len)) [
          | inl f ↦
              rw f (refused m output output codes.ebadparm _ codes.ebadparm_error (refl, refl))
          | inr f ↦ rw f (elim (Bool-cases (nonzero acquired.0)) [
            | inl g ↦ rw g (refused m output output acquired.0 _ g (refl, refl))
            | inr g ↦ rw g (
                bench_acquired-IsAnswer m acquired.1 repeats activation weight output _
                  (ground arith))
          ])
        ])
      ]

  -- For every mode and every argument a call either succeeds, and then returns a cycle count and the
  -- checksum of the bytes that it wrote, or returns an error and no results. The output keeps its
  -- length and, behind the bytes that the mode writes, its contents.
  pub bench_hmx_int8-IsAnswer :
      (m : HmxMode) (given : Bool) (repeats : ℤ) (activation weight output : List ℕ)
      (s : Sys codes d)
      → IsAnswer m output
          (bench_hmx_int8 codes d given (pos (mode_number m)) repeats activation weight output s)
  unfolding bench_hmx_int8
  bench_hmx_int8-IsAnswer m given repeats activation weight output s =
      elim (Bool-cases (not given || not_positive repeats)) [
        | inl e ↦ rw e (refused m output output codes.ebadparm _ codes.ebadparm_error (refl, refl))
        | inr e ↦
            rw (e, decode_mode-number m)
              (bench_mode-IsAnswer m (to_ℕ repeats) activation weight output s)
      ]
