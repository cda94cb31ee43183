-- ===== src/Dsp/Clock/Tests.antt =====
-- The counter's laws at a counter that advances by 10 with each read.
use cdsp_peak.Base.{ℕ, ◌*◌, ◌≡◌, refl}
use cdsp_peak.Dsp.Clock.{measure_timer_overhead, overhead_loop}
use cdsp_peak.Dsp.Clock.Laws.{IsOverhead, measure_timer_overhead_lem}

abbrev steady : ℕ → ℕ
steady k = 10 * k

overhead_of_steady : measure_timer_overhead steady 5 ≡ (10, 261)
unfolding measure_timer_overhead overhead_loop
overhead_of_steady = refl

measure_timer_overhead_lem_example :
    let (overhead, reads') = measure_timer_overhead steady 5 in
    (reads' ≡ 261) × IsOverhead steady 5 overhead
measure_timer_overhead_lem_example = measure_timer_overhead_lem steady 5
