-- ===== src/Host/Options/Laws.antt =====
-- What parsing and resolving the options establish.
use cdsp_peak.Base.{
  ℕ, zero, suc, ◌*◌, ◌^◌, ◌≤◌, ◌<◌, ◌≡◌, ◌⊎◌, inl, inr, refl, arith, Bool, true, false, ◌||◌, none,
  some, List, [], ◌∷◌, min, ◌==◌, if◌then◌else◌, Option-cases,
}
use cdsp_peak.Base.Int.{ℤ, pos, negsuc, not_positive, signed32}
use cdsp_peak.Host.Options.{
  Options, Run, exited, goes_on, and_then, Key, at_least_one, not_negative, at_most_max_threads,
  parse_unsigned_pd_arg, key_scenario, key_size_mib, key_min_ms, key_iterations, key_threads,
  key_domain, key_unsigned_pd, key_power, parse_power_arg, parse_flag, key_of, normalize_options,
  resolve_thread_count, buffer_bytes, parse_int_arg, parse_size_arg, parse_value, parse_args,
  parse_options,
}

abbrev pub IsNormal : Options → Type 0
IsNormal opt =
    (not_positive opt.min_ms ≡ false)
    × ((n : ℕ) × (opt.iterations ≡ pos n))
    × ((n : ℕ) → opt.threads ≡ pos n → n ≤ 256)
    × (1 ≤ opt.size_mib)

-- The process exits with 0 or 2, or it goes on with a value that satisfies `P`.
abbrev pub EndsWell {ℓ} : {A : Type ℓ} → (A → Type 0) → Run A → Type 0
EndsWell P (exited n) = (n ≡ 0) ⊎ (n ≡ 2)
EndsWell P (goes_on a) = P a

abbrev ends {ℓ} : {A : Type ℓ} → Run A → Bool
ends (exited n) = (n == 0) || (n == 2)
ends (goes_on a) = true

ends-and_then {ℓ κ} :
    {A : Type ℓ} {B : Type κ} (r : Run A) (f : A → Run B)
    → ends r ≡ true
    → ((a : A) → ends (f a) ≡ true)
    → ends (and_then r f) ≡ true
ends-and_then (exited n) f h k = h
ends-and_then (goes_on a) f h k = k a

ends-EndsWell {ℓ} :
    {A B : Type ℓ} (P : B → Type 0) (r : Run A) (f : A → B)
    → ends r ≡ true
    → ((a : A) → P (f a))
    → EndsWell P (and_then r (λ a. goes_on (f a)))
ends-EndsWell P (exited n) f h k = ground arith
ends-EndsWell P (goes_on a) f h k = k a

at_least_one_positive : (x : ℤ) → not_positive (at_least_one x) ≡ false
at_least_one_positive (pos zero) = refl
at_least_one_positive (pos (suc n)) = ground arith
at_least_one_positive (negsuc n) = refl

not_negative_lem : (x : ℤ) → (n : ℕ) × (not_negative x ≡ pos n)
not_negative_lem (pos n) = (n, refl)
not_negative_lem (negsuc n) = (0, refl)

at_most_max_threads-le : (x : ℤ) (n : ℕ) → at_most_max_threads x ≡ pos n → n ≤ 256
at_most_max_threads-le (pos m) n e = ground arith
at_most_max_threads-le (negsuc m) n e = absurd cc

clamp_lem : (x : ℤ) → (n : ℕ) × (at_most_max_threads (at_least_one x) ≡ pos n) × (1 ≤ n) × (n ≤ 256)
clamp_lem (pos zero) = (1, refl, omega arith, omega arith)
clamp_lem (pos (suc n)) = (min (suc n) 256, ground arith, omega arith, omega arith)
clamp_lem (negsuc n) = (1, refl, omega arith, omega arith)

normalize_options-IsNormal : (opt : Options) → IsNormal (normalize_options opt)
unfolding normalize_options
normalize_options-IsNormal opt = (
  at_least_one_positive opt.min_ms,
  not_negative_lem opt.iterations,
  at_most_max_threads-le opt.threads,
  ground arith,
)

-- Whatever was parsed and whatever the two capabilities say, the resolved number of threads is at
-- least 1 and at most 256; a number in this range that was asked for is kept; without one, it is the
-- number of 128-byte units, at most 256, where this is positive and fits into an `int`.
pub resolve_thread_count_lem :
    (opt : Options) (hvx_64b hvx_128b : ℕ)
    → let threads = (resolve_thread_count opt hvx_64b hvx_128b).threads in
      ((n : ℕ) × (threads ≡ pos n) × (1 ≤ n) × (n ≤ 256))
      × ((n : ℕ)
          → opt.threads_auto ≡ false
          → opt.threads ≡ pos n
          → 1 ≤ n
          → n ≤ 256
          → threads ≡ pos n)
      × (opt.threads_auto ≡ true
          → 1 ≤ hvx_128b
          → hvx_128b < 2 ^ 31
          → threads ≡ pos (min hvx_128b 256))
unfolding resolve_thread_count
resolve_thread_count_lem opt hvx_64b hvx_128b = (
  clamp_lem (
      if opt.threads_auto
      then (let auto = if hvx_128b == 0 then hvx_64b else hvx_128b in
          if auto == 0 then pos 1 else signed32 auto)
      else opt.threads),
  (λ n auto asked low high. rw (auto, asked) (ground arith)),
  (λ auto low high. rw auto (ground arith)),
)

module _ (strtol : List ℕ → ℤ × List ℕ) (strtoull : List ℕ → ℕ × List ℕ) where
  ends-parse_int_arg : (value : List ℕ) → ends (parse_int_arg strtol strtoull value) ≡ true
  unfolding parse_int_arg
  ends-parse_int_arg value = ground arith

  ends-parse_size_arg : (value : List ℕ) → ends (parse_size_arg strtol strtoull value) ≡ true
  unfolding parse_size_arg
  ends-parse_size_arg value = ground arith

  ends-parse_unsigned_pd_arg : (value : List ℕ) → ends (parse_unsigned_pd_arg value) ≡ true
  unfolding parse_unsigned_pd_arg
  ends-parse_unsigned_pd_arg value = ground arith

  ends-parse_power_arg : (value : List ℕ) → ends (parse_power_arg value) ≡ true
  unfolding parse_power_arg
  ends-parse_power_arg value = ground arith

  ends-parse_value :
      (key : Key) (value : List ℕ) (opt : Options)
      → ends (parse_value strtol strtoull key value opt) ≡ true
  unfolding parse_value
  ends-parse_value key_scenario value opt = refl
  ends-parse_value key_size_mib value opt = ground (arith, ends-parse_size_arg value)
  ends-parse_value key_unsigned_pd value opt = ground (arith, ends-parse_unsigned_pd_arg value)
  ends-parse_value key_power value opt = ground (arith, ends-parse_power_arg value)
  ends-parse_value key_min_ms value opt = ground (arith, ends-parse_int_arg value)
  ends-parse_value key_iterations value opt = ground (arith, ends-parse_int_arg value)
  ends-parse_value key_threads value opt = ground (arith, ends-parse_int_arg value)
  ends-parse_value key_domain value opt = ground (arith, ends-parse_int_arg value)

  ends-parse_flag : (arg : List ℕ) (opt : Options) → ends (parse_flag arg opt) ≡ true
  unfolding parse_flag
  ends-parse_flag arg opt = ground arith

  ends-parse_args :
      (args : List (List ℕ)) (opt : Options) → ends (parse_args strtol strtoull args opt) ≡ true
  unfolding parse_args
  ends-parse_args [] opt = refl
  ends-parse_args (arg ∷ []) opt = ends-parse_flag arg opt
  ends-parse_args (arg ∷ value ∷ rest) opt = elim (Option-cases (key_of arg)) [
    | inl e ↦
        rw (e, ends)
          (ends-and_then (parse_flag arg opt)
            (λ opt'. parse_args strtol strtoull (value ∷ rest) opt') (ends-parse_flag arg opt)
            (λ opt'. ends-parse_args (value ∷ rest) opt'))
    | inr (key, e) ↦
        rw (e, ends)
          (ends-and_then (parse_value strtol strtoull key value opt)
            (λ opt'. parse_args strtol strtoull rest opt') (ends-parse_value key value opt)
            (λ opt'. ends-parse_args rest opt'))
  ]

  -- Whatever the arguments and whatever the library's number parsers answer, parsing the options
  -- either ends the process with status 0 or 2 or yields options with a positive least time, a number
  -- of iterations that is not negative, at most 256 threads and at least 1 MiB.
  pub parse_options-EndsWell :
      (cdsp_domain : ℤ) (args : List (List ℕ))
      → EndsWell IsNormal (parse_options strtol strtoull cdsp_domain args)
  unfolding parse_options
  parse_options-EndsWell cdsp_domain args =
      ends-EndsWell IsNormal (parse_args strtol strtoull args _) normalize_options
        (ends-parse_args args _) normalize_options-IsNormal

-- Below 2 ^ 44 MiB, where the multiplication does not wrap, a size is accepted exactly if its bytes
-- fit into an `int`, and then it is the buffer's size.
pub buffer_bytes_lem :
    (size_mib : ℕ)
    → size_mib < 2 ^ 44
    → ((size_mib ≤ 2047) × (buffer_bytes size_mib ≡ some (size_mib * 2 ^ 20)))
      ⊎ ((2047 < size_mib) × (buffer_bytes size_mib ≡ none))
unfolding buffer_bytes
buffer_bytes_lem size_mib h = ground arith
