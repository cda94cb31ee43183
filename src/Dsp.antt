-- ===== src/Dsp.antt =====
-- The DSP side: the functions that FastRPC calls (idl/cdsp_peak.idl).
pub mod Clock
pub mod Hmx
pub mod Power
pub mod Hvx
pub mod Kernels
pub mod MemBench
