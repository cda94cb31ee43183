-- ===== src/Windows/Compat/Clock.antt =====
-- `cdsp_peak_clock_gettime` of host/windows_compat.c.
use native.Mathlib.Nat.{div-add-mod', mul-add-div, div-lt_iff_lt-mul, mod-lt}
use cdsp_peak.Base.{
  ℕ, ◌+◌, ◌*◌, ◌/◌, ◌%◌, ◌^◌, ◌≤◌, ◌<◌, ◌≡◌, Bool, true, false, not, ◌||◌, Option, none, some, ltb,
  ◌==◌, if◌then◌else◌, arith, inl, inr, Bool-cases, refl, sym, ap, ◌∙◌,
}
use cdsp_peak.Base.Int.{ℤ, pos, negsuc}

-- The static variables.
pub record Clock : Type 0 where
  pub initialized : Bool
  pub frequency : ℕ

pub record Timespec : Type 0 where
  pub tv_sec : ℕ
  pub tv_nsec : ℕ

-- The time of a counter: nothing where the C code has no meaning, which is a frequency 0, or a product
-- that does not fit into `long long`.
unfoldable pub time_of : ℕ → ℕ → Option Timespec
time_of counter frequency =
    let product = counter % frequency * 1000000000 in
    if (frequency == 0) || not (ltb product (2 ^ 63))
    then none
    else some (record { tv_sec = counter / frequency; tv_nsec = product / frequency })

-- `query_frequency` and `query_counter` give nothing where they fail. The outcome, if there is one: the
-- result, what is written, and the static variables.
unfoldable pub clock_gettime :
    Option ℕ → Option ℕ → Bool → Clock → Option (ℤ × Option Timespec × Clock)
clock_gettime query_frequency query_counter ts_there c =
    let read : Clock → Option (ℤ × Option Timespec × Clock) = λ c'. elim query_counter [
      | none ↦ some (negsuc 0, none, c')
      | some counter ↦ elim (time_of counter c'.frequency) [
        | none ↦ none
        | some t ↦ some (pos 0, some t, c')
      ]
    ] in
    if not ts_there
    then some (negsuc 0, none, c)
    else if c.initialized
    then read c
    else elim query_frequency [
      | none ↦ some (negsuc 0, none, c)
      | some f ↦ read (record { initialized = true; frequency = f })
    ]

abbrev pub nanoseconds : Timespec → ℕ
nanoseconds t = t.tv_sec * 1000000000 + t.tv_nsec

giga_lem :
    (counter f q r : ℕ)
    → q * f + r ≡ counter
    → counter * 1000000000 ≡ f * (q * 1000000000) + r * 1000000000
giga_lem counter f q r e = grind arith

-- With a frequency that is not 0 and at most 2^33 per second, the time is defined; in whole
-- nanoseconds it is the counter times 10^9 over the frequency, rounded down, and the part behind the
-- seconds is less than a second.
pub time_of_lem :
    (counter frequency : ℕ)
    → 0 < frequency
    → frequency ≤ 2 ^ 33
    → (t : Timespec) × (time_of counter frequency ≡ some t)
      × (nanoseconds t ≡ counter * 1000000000 / frequency)
      × (t.tv_nsec < 1000000000)
unfolding time_of
time_of_lem counter f h h' =
    let q = counter / f in
    let r = counter % f in
    let small : r < f = mod-lt counter h in
    let fits : ((f == 0) || not (ltb (r * 1000000000) (2 ^ 63))) ≡ false = ground arith in
    let e = giga_lem counter f q r (div-add-mod' counter f) in
    (
      record { tv_sec = q; tv_nsec = r * 1000000000 / f },
      rw (time_of, fits) refl,
      sym (ap (λ x. x / f) e ∙ mul-add-div h (q * 1000000000) (r * 1000000000)),
      (div-lt_iff_lt-mul h).1 (omega (arith, small)),
    )

-- Once the frequency was asked for, it is kept.
abbrev pub Keeps : ℕ → Clock → Type 0
Keeps frequency c = c.initialized ≡ true → c.frequency ≡ frequency

-- Where Windows reports a frequency that is not 0 and at most 2^33 per second, and a counter, each call
-- succeeds, the first one and the later ones; its time is the counter times 10^9 over the frequency,
-- rounded down to nanoseconds, with less than a second behind the seconds.
pub clock_gettime_lem :
    (counter frequency : ℕ) (c : Clock)
    → 0 < frequency
    → frequency ≤ 2 ^ 33
    → Keeps frequency c
    → (t : Timespec) × (c' : Clock) × (clock_gettime (some frequency) (some counter) true c
        ≡ some (pos 0, some t, c'))
      × Keeps frequency c'
      × (nanoseconds t ≡ counter * 1000000000 / frequency)
      × (t.tv_nsec < 1000000000)
unfolding clock_gettime
clock_gettime_lem counter f c h h' keeps =
    let (t, e, total, below) = time_of_lem counter f h h' in
    elim (Bool-cases c.initialized) [
      | inl i ↦
          let e' : time_of counter c.frequency ≡ some t = ap (time_of counter) (keeps i) ∙ e in
          let c' : Clock = record { initialized = true; frequency = c.frequency } in
          let same : c ≡ c' = ap (λ b. record { initialized = b; frequency = c.frequency }) i in
          (
            t,
            c',
            ap (clock_gettime (some f) (some counter) true) same ∙ rw (clock_gettime, e') refl,
            (λ x. keeps i),
            total,
            below,
          )
      | inr i ↦ (
        t,
        record { initialized = true; frequency = f },
        rw (clock_gettime, i, e) refl,
        (λ x. refl),
        total,
        below,
      )
    ]
