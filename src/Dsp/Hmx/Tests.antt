-- ===== src/Dsp/Hmx/Tests.antt =====
-- The HMX benchmark on a small device: a manager with one block of VTCM, and an HMX unit whose stores
-- write ones.
use cdsp_peak.Base.{
  ℕ, ◌+◌, ◌*◌, ◌≡◌, refl, arith, true, some, List, [], ◌∷◌, replicate, length-replicate, All, ◌%◌,
  ◌≤◌,
}
use cdsp_peak.Base.Int.{pos, negsuc}
use cdsp_peak.Aee.{AeeCodes}
use cdsp_peak.Dsp.Hmx.Api
use cdsp_peak.Dsp.Hmx.Api.{Trace, nothing, follow, replay}
use cdsp_peak.Dsp.Hmx.Memory.{Memory, SameOutside, write_block, write_block-SameOutside}
use cdsp_peak.Dsp.Hmx.Resource.{HmxResource, cleared, hmx_resource_release, hmx_resource_acquire}
use cdsp_peak.Dsp.Hmx.Resource.Laws.{
  Owns, Settled, hmx_resource_release_lem, hmx_resource_acquire_lem,
}
use cdsp_peak.Dsp.Hmx.Resource.Block.{GivesWithin}
use cdsp_peak.Dsp.Hmx.Modes.{HmxMode, mode_config}
use cdsp_peak.Dsp.Hmx.Tiles.{Instr, Layout, tile, hmx_int8_tile_uh}
use cdsp_peak.Dsp.Hmx.Tiles.Laws.{IsInside, store_address, store_bytes, tile-IsInside}
use cdsp_peak.Dsp.Hmx.Bench.{Device, Sys, align_up, layout_at, bench_hmx_int8}
use cdsp_peak.Dsp.Hmx.Bench.Held.{bench_hmx_int8-held}
use cdsp_peak.Dsp.Hmx.Bench.Regions.{StoresOnly, layout_lem}
use cdsp_peak.Dsp.Hmx.Bench.Confined.{bench_hmx_int8-SameOutside}
use cdsp_peak.Dsp.Hmx.Bench.Output.{IsAnswer, bench_hmx_int8-IsAnswer}

abbrev codes : AeeCodes
codes = record {
  ebadparm = pos 14;
  eunsupported = pos 20;
  enomemory = pos 2;
  efailed = pos 1;
  ebadparm_error = refl;
  eunsupported_error = refl;
  enomemory_error = refl;
  efailed_error = refl;
}

-- Everything succeeds, except the lock: that fails with -3.
abbrev manager : Api.Api
manager = record {
  present = λ _. true;
  query = λ _. (pos 0, 0x40000);
  attr_result = λ _. pos 0;
  new_rctx = λ _ _. 7;
  cached_result = λ _ _ _. pos 0;
  get_ptr = λ _ n. (pos 0, 0x10000, 0x40000);
  lock_result = λ _ _. negsuc 2;
}

abbrev write_ones : Instr → Unit {0} × Memory → Unit {0} × Memory
write_ones i (u, m) = (u, write_block (store_address i) (replicate (store_bytes i) 1) m)

abbrev device : Device
device = record {
  Unit_state = Unit {0};
  exec = write_ones;
  clock = λ k. 10 * k;
  api = record manager { lock_result = λ _ _. pos 0 };
  hmx_arch = 73;
}

abbrev start : Sys codes device
start = record { trace = []; reads = 0; unit = tt; memory = λ _. 0 }

abbrev tile_bytes : List ℕ
tile_bytes = replicate 2048 1

write_ones-StoresOnly : StoresOnly device
write_ones-StoresOnly i (u, m) p out =
    write_block-SameOutside (store_address i) (store_bytes i) (store_address i)
      (replicate (store_bytes i) 1) m (omega arith)
      (omega (arith, length-replicate {A = ℕ} (store_bytes i) 1)) p out

empty-replay : replay [] ≡ some nothing
unfolding replay
empty-replay = refl

abbrev held_resource : HmxResource
held_resource = record {
  rctx = 7;
  vtcm = 0x10000;
  vtcm_size = 0x40000;
  cached = true;
  locked = true;
}

abbrev acquiring : Trace
acquiring = Api.locked 7 (pos 0) ∷ Api.acquired_cached 7 (pos 0) ∷ Api.acquired 7 ∷ []

acquiring-Owns : Owns held_resource acquiring
unfolding replay follow
acquiring-Owns = record { context = omega arith; held = refl }

hmx_resource_release_lem_example :
    let (res', t') = hmx_resource_release held_resource acquiring in
    (replay t' ≡ some nothing) × (res' ≡ cleared)
hmx_resource_release_lem_example = hmx_resource_release_lem acquiring-Owns

-- The lock fails, so cached access and the context are given back.
hmx_resource_acquire_lem_example :
    Settled true true (hmx_resource_acquire codes manager 4096 true true [])
hmx_resource_acquire_lem_example =
    hmx_resource_acquire_lem codes manager 4096 true true [] empty-replay

bench_hmx_int8-held_example :
    replay
      (bench_hmx_int8 codes device true
        (pos 14)
        (pos 3)
        tile_bytes
        tile_bytes
        tile_bytes
        start).sys.trace
    ≡ some nothing
bench_hmx_int8-held_example =
    bench_hmx_int8-held codes device true (pos 14) (pos 3) tile_bytes tile_bytes tile_bytes start
      empty-replay

tile-IsInside_example :
    let l : Layout = layout_at (mode_config HmxMode.int8_uh) 0x10000 in
    All (IsInside (mode_config HmxMode.int8_uh) l) (hmx_int8_tile_uh l)
unfolding tile
tile-IsInside_example =
    let l : Layout = layout_at (mode_config HmxMode.int8_uh) 0x10000 in
    tile-IsInside l 68 HmxMode.int8_uh (hmx_int8_tile_uh l) refl

layout_lem_example :
    let l = layout_at (mode_config HmxMode.int8_uh) (align_up 7 0x10000) in
    (l.activation % 128 ≡ 0)
    × (0x10000 ≤ l.activation)
    × (l.output + (mode_config HmxMode.int8_uh).written_len + 128 ≤ 0x50000)
unfolding mode_config
layout_lem_example = layout_lem HmxMode.int8_uh held_resource (omega arith) refl

manager-GivesWithin : GivesWithin 0x10000 0x40000 manager
manager-GivesWithin t n e = omega arith

bench_hmx_int8-SameOutside_example :
    SameOutside 0x10000 0x40000
      (λ _. 0)
      (bench_hmx_int8 codes device true
        (pos 14)
        (pos 3)
        tile_bytes
        tile_bytes
        tile_bytes
        start).sys.memory
bench_hmx_int8-SameOutside_example =
    bench_hmx_int8-SameOutside 0x10000 0x40000 codes device write_ones-StoresOnly
      manager-GivesWithin (omega arith) true (pos 14) (pos 3) tile_bytes tile_bytes tile_bytes start

bench_hmx_int8-IsAnswer_example :
    IsAnswer codes device HmxMode.int8_ub_full_x64 tile_bytes
      (bench_hmx_int8 codes device true (pos 14) (pos 3) tile_bytes tile_bytes tile_bytes start)
bench_hmx_int8-IsAnswer_example =
    bench_hmx_int8-IsAnswer codes device HmxMode.int8_ub_full_x64 true (pos 3) tile_bytes tile_bytes
      tile_bytes start
