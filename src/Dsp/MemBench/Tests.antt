-- ===== src/Dsp/MemBench/Tests.antt =====
-- The memory benchmarks on small buffers, with a vector unit that stores and loads bytes.
use cdsp_peak.Base.{
  ℕ, ◌≡◌, refl, arith, true, some, List, [], ◌++◌, length, take, drop, replicate, length-take,
  length-append, length-replicate, take-append_exact,
}
use cdsp_peak.Base.Int.{pos}
use cdsp_peak.Aee.{AeeCodes, aee_success}
use cdsp_peak.Dsp.Hvx.{Hvx, KeepsBytes}
use cdsp_peak.Dsp.Kernels.{State, iterate}
use cdsp_peak.Dsp.MemBench.{bench_mem_write, checksum_bytes}
use cdsp_peak.Dsp.MemBench.Laws.{filled}
use cdsp_peak.Dsp.MemBench.Calls.{bench_mem_write-filled}

abbrev pub codes : AeeCodes
codes = record {
  ebadparm = pos 14;
  eunsupported = pos 20;
  enomemory = pos 2;
  efailed = pos 1;
  ebadparm_error = refl;
  eunsupported_error = refl;
  enomemory_error = refl;
  efailed_error = refl;
}

abbrev padded : List ℕ → List ℕ
padded bs = take 128 (bs ++ replicate 128 0)

-- A vector is its bytes; the arithmetic is left out.
abbrev pub byte_vectors : Hvx
byte_vectors = record {
  Vec = List ℕ;
  store = padded;
  load = λ bs. bs;
  splat = replicate 128;
  vzero = [];
  vadd_w = λ a b. a;
  vmpy_sf = λ a b. a;
  vadd_sf = λ a b. a;
  vmpyacc_hf = λ acc a b. a;
  vmpy_qf16 = λ a b. a;
  vadd_qf16 = λ a b. a;
  vmpy_qf32 = λ a b. a;
  vadd_qf32 = λ a b. a;
  vrmpyacc = λ acc a b. a;
  vrmpy = λ a b. a;
}

length-padded : (bs : List ℕ) → length (padded bs) ≡ 128
length-padded bs = omega (
  arith,
  length-take 128 (bs ++ replicate 128 0),
  length-append bs (replicate 128 0),
  length-replicate {A = ℕ} 128 0,
)

pub byte_vectors-KeepsBytes : KeepsBytes byte_vectors
byte_vectors-KeepsBytes = record {
  length-store = length-padded;
  store-load = λ bs h. take-append_exact 128 bs (replicate 128 0) h;
}

abbrev pub fresh : State codes byte_vectors (λ i. i) 79
fresh = record { timer_overhead = 0; sink = []; reads = 0 }

abbrev sevens : List ℕ
sevens = replicate 300 7

abbrev zeros : List ℕ
zeros = replicate 200 0

bench_mem_write-filled_example :
    let (ret, dst', outs, s') =
      bench_mem_write codes byte_vectors (λ i. i) 79 true sevens (pos 2) fresh in
    let last =
      iterate 1
        (λ x. byte_vectors.vadd_w x (byte_vectors.splat 0x01010101))
        (byte_vectors.splat 0x5a5a5a5a) in
    (ret ≡ aee_success)
    × (dst' ≡ filled byte_vectors byte_vectors-KeepsBytes 2 last ++ drop 256 sevens)
    × ((cycles : ℕ) × (sum : ℕ) × (checksum_bytes dst' 300 ≡ some sum)
        × (outs ≡ some (cycles, sum)))
bench_mem_write-filled_example =
    bench_mem_write-filled codes byte_vectors (λ i. i) 79 byte_vectors-KeepsBytes sevens 1 fresh
      (omega arith) (omega arith)
