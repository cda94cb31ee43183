-- ===== src/Lib.antt =====
-- Verification of cdsp_peak, a benchmark for the Hexagon compute DSP. The program has two halves: a
-- host program (host/cdsp_peak.c) that parses its options, opens one FastRPC handle per thread and
-- times remote calls, and a DSP library (dsp/*.c) that serves these calls: compute kernels, memory
-- loops, matrix tiles of the HMX unit, and power votes. FastRPC carries the calls and copies their
-- buffers; its stubs are generated from idl/cdsp_peak.idl.
--
-- What models what:
--   Aee               the error codes of AEEStdErr.h, a parameter with success 0 and errors not 0
--   Bits, Fnv         the FNV mixing of `checksum_vector` and `checksum_hmx_output`
--   Dsp.Clock         `read_cycles`, `measure_timer_overhead`, `elapsed_cycles` of
--                     dsp/cdsp_peak_imp.c and their copies in dsp/cdsp_peak_hmx.c
--   Dsp.Power         dsp/cdsp_peak_power.c and, as Dsp.Power.Hap, dsp/cdsp_peak_hap_power.h
--                     (Votes and Replay are its specification: the list of requests that is worked
--                     off, and what a history of calls holds)
--   Dsp.Hmx           dsp/cdsp_peak_hmx.c: Api is the compute resource manager, a parameter, and the
--                     ledger of what is held; Resource has `hmx_resource_acquire` and
--                     `hmx_resource_release`; Modes the mode switches; Tiles the tile routines as
--                     lists of HMX instructions; Bench `cdsp_peak_bench_hmx_int8`
--   Dsp.Hvx           the HVX intrinsics that the kernels call, a parameter
--   Dsp.Kernels       `cdsp_peak_open`, `cdsp_peak_close`, `cdsp_peak_get_info`,
--                     `cdsp_peak_bench_compute` and the six kernels of dsp/cdsp_peak_imp.c
--   Dsp.MemBench      `cdsp_peak_bench_mem_read`, `_write` and `_copy` of dsp/cdsp_peak_imp.c
--   Host.Options      the options of host/cdsp_peak.c, the thread count, the buffer size
--   Host.Arch         `normalize_hexagon_arch`, `skel_arch_suffix`, `domain_suffix`, `make_uri`
--   Host.Filter       `scenario_enabled`
--   Host.Scenarios    the tables of scenarios, `hmx_scenario_enabled`, the HMX buffer sizes
--   Host.ExeDir       `executable_dir`, `executable_dir_has_skel`, `add_executable_dir_to_dsp_paths`
--   Host.Buffers      `fill_source`, `verify_copy`, `fill_hmx_inputs`
--   Host.Power        `apply_power_config`
--   Host.Workers      `measure_rpc_threads`, `measure_compute_threads`, `measure_mem_threads`, and as
--                     Bodies the functions that their threads run
--   Host.Calibrate    the loops of `run_rpc_null`, `run_compute`, `run_hmx_int8`, `run_mem`, and as
--                     Group `run_compute_group`
--   Host.Main         `main`: System is FastRPC and the operating system, a parameter; Control the
--                     requests to FastRPC; Acquire what is taken and given back, behind `out` too; Jobs
--                     the loops over the tables. Ledger and Plan are its specifications: what is
--                     taken and given back, and which benchmarks a filter asks for
--   Windows.Service   host/fastrpc_windows.c: where it looks for libcdsprpc.dll
--   Windows.Loader    its `ensure_cdsprpc_loaded` and the ten functions behind it
--   Windows.Compat    host/windows_compat.c, and as Threads host/pthread.h
-- Functions and types keep the names of the source; a handler `cdsp_peak_x` is called `x`.
--
-- How it is modelled. State is passed explicitly: the counter is a function of the number of reads
-- so far, calls of the resource manager and of `HAP_power_set` are kept as a trace, the DSP's memory
-- is a function from 32-bit addresses to bytes, a buffer is a list of bytes. C's `int` is a signed
-- integer, and where the code computes in `uint32_t`, `uint64_t` or a pointer of the 32-bit DSP, the
-- reduction modulo 2^32 or 2^64 is written out. `size_t` of the host has 64 bits. Buffers that one
-- call gets are taken to be disjoint, as FastRPC passes them, and a length that is passed is the
-- length of its buffer.
--
-- Loops are structural recursion, on the rounds that are left or on the list. Two are on fuel: that
-- of `scenario_enabled`, with as much fuel as the filter has bytes, since every round but the last
-- takes a byte or more off it; and the calibration loops, with 32 rounds, since a count that is
-- doubled from 1 reaches every one of their limits in fewer.
--
-- Not modelled: what the HVX and HMX instructions compute and the power manager's effect (hardware
-- and firmware; what is relied on is a named hypothesis); times, which are doubles of a clock, so that
-- whether a measurement was long enough is a parameter of the calibration loops, and in `main` a whole
-- measurement is one (its threads are in Host.Workers); messages and the rows of the output; the
-- start-up code host/android_crt.c, which is assembly; and the build files.
pub mod Aee
pub mod Base
pub mod Bits
pub mod Dsp
pub mod Fnv
pub mod Host
pub mod Windows
