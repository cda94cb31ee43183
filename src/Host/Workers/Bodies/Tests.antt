-- ===== src/Host/Workers/Bodies/Tests.antt =====
-- Threads over the handlers of the DSP, with a vector unit that stores and loads bytes.

use cdsp_peak.Base.{[], none, ℕ, ◌+◌, ◌*◌, ◌≡◌, refl, arith, List, replicate}
use cdsp_peak.Base.Int.{pos}
use cdsp_peak.Aee.{aee_success}
use cdsp_peak.Dsp.MemBench.Tests.{codes, byte_vectors, byte_vectors-KeepsBytes, fresh}
use cdsp_peak.Host.Scenarios.{MemScenario}
use cdsp_peak.Host.Workers.Bodies.{Session, mem_thread_main}
use cdsp_peak.Host.Workers.Bodies.Laws.{
  dsp_session, mem_thread_main-copies, mem_thread_main_detects,
}
use cdsp_peak.Host.Buffers.Laws.{replicate_differs}
use cdsp_peak.Dsp.Kernels.{State}

abbrev mem_copy : MemScenario
mem_copy = record { name = cdsp_peak.Base.codes "mem-copy"; kind = 2; bytes_scale = 2 }

abbrev sevens : List ℕ
sevens = replicate 256 7

abbrev zeros : List ℕ
zeros = replicate 256 0

mem_thread_main-copies_example :
    let (w, dst', s') =
      mem_thread_main
        (dsp_session codes byte_vectors (λ i. i) 79)
        codes.efailed
        mem_copy
        sevens
        zeros
        (pos 3)
        fresh in
    (w.err ≡ aee_success) × (dst' ≡ sevens)
mem_thread_main-copies_example =
    mem_thread_main-copies codes byte_vectors (λ i. i) 79 byte_vectors-KeepsBytes mem_copy sevens
      zeros 2 fresh refl (omega arith) (omega arith) refl refl

-- The DSP behind a link that reports success and copies nothing.
abbrev broken : Session (State codes byte_vectors (λ i. i) 79)
broken = record (dsp_session codes byte_vectors (λ i. i) 79) {
  bench_mem_copy = λ src dst repeats s. (aee_success, dst, none, s);
}

mem_thread_main_detects_example :
    let (w, dst', s') =
      mem_thread_main broken (pos 1) mem_copy (replicate 4096 5) (replicate 4096 0) (pos 3) fresh in
    w.err ≡ pos 1
mem_thread_main_detects_example =
    mem_thread_main_detects broken (pos 1) mem_copy (replicate 4096 5) (replicate 4096 0) (pos 3)
      fresh 1 7 refl (omega arith) refl (omega arith) refl
      (λ j h r. replicate_differs 4096 5 0 j (omega arith) h)
