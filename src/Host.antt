-- ===== src/Host.antt =====
-- The benchmark's program on the host, host/cdsp_peak.c.
pub mod Options
pub mod Filter
pub mod Power
pub mod Calibrate
pub mod Workers
pub mod Arch
pub mod ExeDir
pub mod Buffers
pub mod Main
pub mod Scenarios
mod Tests
