-- ===== src/Dsp/Hmx/Tiles/Built.antt =====
-- Which builds have the two tiles that older builds lack.
use cdsp_peak.Base.{ℕ, ◌≤◌, ◌≢◌, arith, none}
use cdsp_peak.Dsp.Hmx.Tiles.{Layout, hmx_int4_tile_ub_wn2x_full_x64, hmx_int8_tile_uh2x2_full_x64}

pub hmx_int8_tile_uh2x2_full_x64_built :
    (arch : ℕ) (l : Layout) → 69 ≤ arch → hmx_int8_tile_uh2x2_full_x64 arch l ≢ none
unfolding hmx_int8_tile_uh2x2_full_x64
hmx_int8_tile_uh2x2_full_x64_built arch l h = ground arith

pub hmx_int4_tile_ub_wn2x_full_x64_built :
    (arch : ℕ) (l : Layout) → 73 ≤ arch → hmx_int4_tile_ub_wn2x_full_x64 arch l ≢ none
unfolding hmx_int4_tile_ub_wn2x_full_x64
hmx_int4_tile_ub_wn2x_full_x64_built arch l h = ground arith
