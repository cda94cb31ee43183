-- ===== src/Dsp/Hmx.antt =====
-- dsp/cdsp_peak_hmx.c: the HMX benchmark and the resources that it takes.
pub mod Api
pub mod Resource
pub mod Modes
pub mod Tiles
pub mod Memory
pub mod Bench
mod Tests
