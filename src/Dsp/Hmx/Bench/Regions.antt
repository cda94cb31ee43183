-- ===== src/Dsp/Hmx/Bench/Regions.antt =====
-- Where `cdsp_peak_bench_hmx_int8` works in memory: the regions that it lays out in VTCM, and what
-- it leaves alone.

use cdsp_peak.Base.{
  ℕ, zero, suc, ◌+◌, ◌%◌, ◌^◌, ◌≤◌, ◌≡◌, inl, inr, refl, ◌∙◌, arith, true, List, [], ◌∷◌, length,
  All, take, replicate, length-take, length-replicate, Bool-cases, Option-cases,
}
use cdsp_peak.Base.Int.{nonzero}
use cdsp_peak.Aee.{AeeCodes}
use cdsp_peak.Dsp.Hmx.Resource.{HmxResource}
use cdsp_peak.Dsp.Hmx.Memory.{Memory, Outside, SameOutside, write_block, write_block-SameOutside}
use cdsp_peak.Dsp.Hmx.Modes.{HmxMode, mode_config}
use cdsp_peak.Dsp.Hmx.Tiles.{Instr, Layout, tile}
use cdsp_peak.Dsp.Hmx.Tiles.Laws.{IsInside, store_bytes, store_address, tile-IsInside}
use cdsp_peak.Dsp.Hmx.Bench.{
  Device, Sys, align_up, required_vtcm, layout_at, fits, exec_all, run_repeats, stage, bias_bytes,
  overwrite, answer_probe, measure, bench_acquired,
}

-- The block of VTCM ends well below the end of the address space.
abbrev pub Low : HmxResource → Type 0
Low res = res.vtcm + res.vtcm_size + 2 ^ 17 ≤ 2 ^ 32

-- The sizes of every mode.
config-le : (m : HmxMode) → required_vtcm (mode_config m) + 128 ≤ 2 ^ 17
unfolding mode_config
config-le HmxMode.int8_ub = omega arith
config-le m = omega arith

-- Where the size test passes, the layout begins at a multiple of 128 inside the block and ends inside
-- it, 128 bytes or more before its end.
pub layout_lem :
    (m : HmxMode) (res : HmxResource)
    → Low res
    → fits (mode_config m) res ≡ true
    → let l = layout_at (mode_config m) (align_up 7 res.vtcm) in
      (l.activation % 128 ≡ 0)
      × (res.vtcm ≤ l.activation)
      × (l.output + (mode_config m).written_len + 128 ≤ res.vtcm + res.vtcm_size)
layout_lem m res low ok = ground (arith, config-le m)

bias_bytes-length : (m : HmxMode) → length (bias_bytes m) ≡ 256
unfolding bias_bytes
bias_bytes-length HmxMode.int8_ub = refl
bias_bytes-length m = refl

-- The staged inputs stay inside the block.
stage-SameOutside :
    (m : HmxMode) (res : HmxResource) (activation weight : List ℕ) (mem : Memory)
    → Low res
    → fits (mode_config m) res ≡ true
    → SameOutside res.vtcm res.vtcm_size mem
        (stage m (layout_at (mode_config m) (align_up 7 res.vtcm)) activation weight mem)
unfolding stage
stage-SameOutside m res activation weight mem low ok p out =
    let c = mode_config m in
    let l = layout_at c (align_up 7 res.vtcm) in
    let bounds = layout_lem m res low ok in
    let m₁ = write_block l.activation (take c.activation_vtcm_len activation) mem in
    let m₂ = write_block l.weight (take c.weight_vtcm_len weight) m₁ in
    let m₃ = write_block l.weight2 (take 1024 weight) m₂ in
    let m₄ = write_block l.bias (bias_bytes m) m₃ in
    put l.output (replicate c.written_len 0) m₄
      (omega (arith, length-replicate {A = ℕ} c.written_len 0))
      (omega (arith, length-replicate {A = ℕ} c.written_len 0))
    ∙ put l.bias (bias_bytes m) m₃ (omega (arith, bias_bytes-length m))
        (omega (arith, bias_bytes-length m))
    ∙ put l.weight2 (take 1024 weight) m₂ (omega (arith, length-take 1024 weight))
        (omega (arith, length-take 1024 weight))
    ∙ put l.weight (take c.weight_vtcm_len weight) m₁
        (omega (arith, length-take c.weight_vtcm_len weight))
        (omega (arith, length-take c.weight_vtcm_len weight))
    ∙ put l.activation (take c.activation_vtcm_len activation) mem
        (omega (arith, length-take c.activation_vtcm_len activation))
        (omega (arith, length-take c.activation_vtcm_len activation))
  where
    put :
        (a : ℕ) (bytes : List ℕ) (mem' : Memory)
        → res.vtcm ≤ a
        → a + length bytes ≤ res.vtcm + res.vtcm_size
        → write_block a bytes mem' p ≡ mem' p
    put a bytes mem' lo hi = write_block-SameOutside res.vtcm res.vtcm_size a bytes mem' lo hi p out

-- What the HMX unit is documented to do to memory: a store writes its tile at its address, and no
-- other instruction writes.
abbrev pub StoresOnly : (d : Device) → Type 0
StoresOnly d =
    (i : Instr) (s : d.Unit_state × Memory)
    → SameOutside (store_address i) (store_bytes i) s.1 (d.exec i s).1

IsInside-store :
    (m : HmxMode) (l : Layout) (i : Instr) (p : ℕ)
    → IsInside (mode_config m) l i
    → Outside l.output (mode_config m).written_len p
    → Outside (store_address i) (store_bytes i) p
IsInside-store m l Instr.mxclracc p h out = omega arith
IsInside-store m l i p h out = omega arith

module _ (codes : AeeCodes) (d : Device) (stores : StoresOnly d) where
  abbrev KeepsOutput : HmxMode → Layout → Memory → Memory → Type 0
  KeepsOutput m l mem mem' = SameOutside l.output (mode_config m).written_len mem mem'

  exec_all-keeps :
      (m : HmxMode) (l : Layout) (is : List Instr) (s : d.Unit_state × Memory)
      → All (IsInside (mode_config m) l) is
      → KeepsOutput m l s.1 (exec_all codes d is s).1
  unfolding exec_all
  exec_all-keeps m l [] s h p out = refl
  exec_all-keeps m l (i ∷ is) s h p out =
      exec_all-keeps m l is (d.exec i s) h.1 p out ∙ stores i s p (IsInside-store m l i p h.0 out)

  run_repeats-keeps :
      (n : ℕ) (m : HmxMode) (l : Layout) (s : d.Unit_state × Memory)
      → KeepsOutput m l s.1 (run_repeats codes d n m l s).2
  unfolding run_repeats
  run_repeats-keeps zero m l s p out = refl
  run_repeats-keeps (suc n) m l s p out = elim (Option-cases (tile d.hmx_arch m l)) [
    | inl e ↦ rw (e, run_repeats)
    | inr (is, e) ↦
        rw (e, run_repeats)
          (run_repeats-keeps n m l (exec_all codes d is s) p out
            ∙ exec_all-keeps m l is s (tile-IsInside l d.hmx_arch m is e) p out)
  ]

  measure-memory :
      (m : HmxMode) (l : Layout) (res : HmxResource) (repeats : ℕ) (output : List ℕ)
      (s : Sys codes d)
      → (measure codes d m l res repeats output s).sys.memory
        ≡ (run_repeats codes d repeats m l (s.unit, s.memory)).2
  unfolding measure
  measure-memory m l res repeats output s =
      let (err, unit, mem) = run_repeats codes d repeats m l (s.unit, s.memory) in
      elim (Bool-cases (nonzero err)) [ inl e ↦ rw e | inr e ↦ rw e ]

  -- With a resource acquired, the benchmark writes to no byte of the DSP's memory outside the block of
  -- VTCM that the resource names: neither when it stages the inputs nor by any HMX instruction.
  pub bench_acquired-SameOutside :
      (m : HmxMode) (res : HmxResource) (repeats : ℕ) (activation weight output : List ℕ)
      (s : Sys codes d)
      → Low res
      → SameOutside res.vtcm res.vtcm_size s.memory
          (bench_acquired codes d m res repeats activation weight output s).sys.memory
  unfolding bench_acquired answer_probe
  bench_acquired-SameOutside m res repeats activation weight output s low p out =
      elim (Bool-cases (mode_config m).is_probe) [
        | inl e ↦ rw e
        | inr e ↦ rw e (elim (Bool-cases (fits (mode_config m) res)) [
          | inl f ↦ rw f (staged f)
          | inr f ↦ rw f
        ])
      ]
    where
      l : Layout
      l = layout_at (mode_config m) (align_up 7 res.vtcm)

      s₁ : Sys codes d
      s₁ = record s { memory = stage m l activation weight s.memory }

      output' : List ℕ
      output' = overwrite (replicate (mode_config m).written_len 0) output

      staged :
          fits (mode_config m) res ≡ true
          → (measure codes d m l res repeats output' s₁).sys.memory p ≡ s.memory p
      staged f =
          let bounds = layout_lem m res low f in
          rw (measure-memory m l res repeats output' s₁) (
            run_repeats-keeps repeats m l (s.unit, s₁.memory) p (omega arith)
            ∙ stage-SameOutside m res activation weight s.memory low f p out)
