-- ===== src/Dsp/Hmx/Bench/Held.antt =====
-- `cdsp_peak_bench_hmx_int8` gives back what it takes.
use cdsp_peak.Base.{
  ℕ, ◌≡◌, inl, inr, Bool, not, ◌||◌, none, some, List, length, u32, ltb, Bool-cases, Option-cases,
  if◌then◌else◌,
}
use cdsp_peak.Base.Int.{ℤ, nonzero, to_ℕ, not_positive}
use cdsp_peak.Aee.{AeeCodes}
use cdsp_peak.Dsp.Hmx.Api.{nothing, replay}
use cdsp_peak.Dsp.Hmx.Resource.{HmxResource, Acquired, hmx_resource_release}
use cdsp_peak.Dsp.Hmx.Resource.Laws.{Settled, hmx_resource_release_lem, hmx_resource_acquire_lem}
use cdsp_peak.Dsp.Hmx.Modes.{HmxMode, decode_mode, mode_config}
use cdsp_peak.Dsp.Hmx.Tiles.{Layout}
use cdsp_peak.Dsp.Hmx.Bench.{
  Device, Sys, reply, required_vtcm, fits, run_repeats, answer_probe, measure, bench_acquired,
  bench_mode, bench_hmx_int8,
}

module _ (codes : AeeCodes) (d : Device) where
  -- Behind a `goto`-free body every return of the inner parts has released the resource once.
  measure-trace :
      (m : HmxMode) (l : Layout) (res : HmxResource) (repeats : ℕ) (output : List ℕ)
      (s : Sys codes d)
      → (measure codes d m l res repeats output s).sys.trace ≡ (hmx_resource_release res s.trace).1
  unfolding measure
  measure-trace m l res repeats output s =
      let (err, unit, mem) = run_repeats codes d repeats m l (s.unit, s.memory) in
      elim (Bool-cases (nonzero err)) [ inl e ↦ rw e | inr e ↦ rw e ]

  bench_acquired-trace :
      (m : HmxMode) (res : HmxResource) (repeats : ℕ) (activation weight output : List ℕ)
      (s : Sys codes d)
      → (bench_acquired codes d m res repeats activation weight output s).sys.trace
        ≡ (hmx_resource_release res s.trace).1
  unfolding bench_acquired answer_probe
  bench_acquired-trace m res repeats activation weight output s =
      elim (Bool-cases (mode_config m).is_probe) [
        | inl e ↦ rw e
        | inr e ↦ rw e (elim (Bool-cases (fits (mode_config m) res)) [
          | inl f ↦ rw f (measure-trace m _ res repeats _ _)
          | inr f ↦ rw f
        ])
      ]

  after_acquire :
      (m : HmxMode) (repeats : ℕ) (activation weight output : List ℕ) (s : Sys codes d)
      (r : Acquired)
      → Settled (mode_config m).use_cached (mode_config m).use_lock r
      → let s₁ = record s { trace = r.2 } in
        replay
          (if nonzero r.0
            then reply codes d r.0 output none s₁
            else bench_acquired codes d m r.1 repeats activation weight output s₁).sys.trace
        ≡ some nothing
  after_acquire m repeats activation weight output s r (inl (e, owns, c, l)) =
      let s₁ = record s { trace = r.2 } in
      rw (e, bench_acquired-trace m r.1 repeats activation weight output s₁)
        (hmx_resource_release_lem owns).0
  after_acquire m repeats activation weight output s r (inr (bad, h, _)) = rw bad h

  bench_mode-held :
      (m : HmxMode) (repeats : ℕ) (activation weight output : List ℕ) (s : Sys codes d)
      → replay s.trace ≡ some nothing
      → replay (bench_mode codes d m repeats activation weight output s).sys.trace ≡ some nothing
  unfolding bench_mode
  bench_mode-held m repeats activation weight output s h =
      let c = mode_config m in
      let short =
        ltb (length activation) c.activation_vtcm_len || ltb (length weight) c.weight_vtcm_len in
      elim (Bool-cases short) [
        | inl e ↦ rw e h
        | inr e ↦ rw e (elim (Bool-cases (ltb (length output) c.written_len)) [
          | inl f ↦ rw f h
          | inr f ↦ rw f (
              after_acquire m repeats activation weight output s _ (
                hmx_resource_acquire_lem codes d.api (u32 (required_vtcm c)) c.use_cached c.use_lock
                  s.trace h))
        ])
      ]

  -- If nothing is held before the call, nothing is held after it, whatever the arguments, whatever
  -- the resource manager answers and on whichever path the call ends; and no call of the manager
  -- breaks its protocol.
  pub bench_hmx_int8-held :
      (given : Bool) (mode repeats : ℤ) (activation weight output : List ℕ) (s : Sys codes d)
      → replay s.trace ≡ some nothing
      → replay (bench_hmx_int8 codes d given mode repeats activation weight output s).sys.trace
        ≡ some nothing
  unfolding bench_hmx_int8
  bench_hmx_int8-held given mode repeats activation weight output s h =
      elim (Bool-cases (not given || not_positive repeats)) [
        | inl e ↦ rw e h
        | inr e ↦ rw e (elim (Option-cases (decode_mode mode)) [
          | inl f ↦ rw f h
          | inr (m, f) ↦ rw f (bench_mode-held m (to_ℕ repeats) activation weight output s h)
        ])
      ]
