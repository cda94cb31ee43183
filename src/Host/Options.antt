-- ===== src/Host/Options.antt =====
-- The options of host/cdsp_peak.c: `parse_options` and the functions that it calls,
-- `resolve_thread_count`, and the size of the memory buffers. `strtol` and `strtoull` of the C
-- library are parameters.
pub mod Laws
use cdsp_peak.Base.{
  ℕ, zero, suc, ◌+◌, ◌-◌, ◌*◌, ◌/◌, ◌%◌, ◌^◌, ◌≡◌, refl, ◌⊎◌, inl, inr, Bool, true, false, not,
  ◌||◌, Option, none, some, List, [], ◌∷◌, u32, u64, ltb, ◌==◌, if◌then◌else◌, codes, same_text,
}
use cdsp_peak.Base.Int.{ℤ, pos, negsuc, not_positive, to_int, signed32}

pub data UnsignedPd : Type 0 where
  pd_off pd_required pd_optional : UnsignedPd

pub data PowerMode : Type 0 where
  power_none power_max : PowerMode

pub record Options : Type 0 where
  pub domain : ℤ
  pub unsigned_pd : UnsignedPd
  pub reset : Bool
  pub min_ms : ℤ
  pub iterations : ℤ
  pub threads : ℤ
  pub threads_auto : Bool
  pub power_mode : PowerMode
  pub size_mib : ℕ
  pub scenario_filter : List ℕ

-- What becomes of the process: `exit(status)`, or it goes on with a value.
pub data Run {ℓ} (A : Type ℓ) : Type ℓ where
  exited : ℕ → Run A
  goes_on : A → Run A

abbrev pub and_then {ℓ κ} : {A : Type ℓ} {B : Type κ} → Run A → (A → Run B) → Run B
and_then (exited n) f = exited n
and_then (goes_on a) f = f a

pub Run-cases {ℓ} :
    {A : Type ℓ} (r : Run A) → ((n : ℕ) × (r ≡ exited n)) ⊎ ((a : A) × (r ≡ goes_on a))
Run-cases (exited n) = inl (n, refl)
Run-cases (goes_on a) = inr (a, refl)

abbrev pub one_of : List ℕ → List (List ℕ) → Bool
one_of value [] = false
one_of value (t ∷ ts) = same_text value t || one_of value ts

abbrev pub max_threads : ℕ
max_threads = 256

unfoldable pub parse_unsigned_pd_arg : List ℕ → Run UnsignedPd
parse_unsigned_pd_arg value =
    if one_of value (codes "0" ∷ codes "off" ∷ codes "none" ∷ [])
    then goes_on pd_off
    else if one_of value (codes "1" ∷ codes "on" ∷ codes "required" ∷ [])
    then goes_on pd_required
    else if one_of value (codes "optional" ∷ codes "auto" ∷ [])
    then goes_on pd_optional
    else exited 2

unfoldable pub parse_power_arg : List ℕ → Run PowerMode
parse_power_arg value =
    if one_of value (codes "none" ∷ codes "off" ∷ codes "0" ∷ [])
    then goes_on power_none
    else if one_of value (codes "max" ∷ codes "on" ∷ codes "1" ∷ [])
    then goes_on power_max
    else exited 2

-- `!value[0] || (end && *end)`: there is nothing to read, or something is left.
abbrev pub unread : List ℕ → List ℕ → Bool
unread [] rest = true
unread (c ∷ cs) [] = false
unread (c ∷ cs) (r ∷ rest) = true

-- The options that take a value.
pub data Key : Type 0 where
  key_scenario key_size_mib key_min_ms key_iterations key_threads : Key
  key_domain key_unsigned_pd key_power : Key

unfoldable pub key_of : List ℕ → Option Key
key_of arg =
    if same_text arg (codes "--scenario")
    then some key_scenario
    else if same_text arg (codes "--size-mib")
    then some key_size_mib
    else if same_text arg (codes "--min-ms")
    then some key_min_ms
    else if same_text arg (codes "--iterations")
    then some key_iterations
    else if same_text arg (codes "--threads")
    then some key_threads
    else if same_text arg (codes "--domain")
    then some key_domain
    else if same_text arg (codes "--unsigned-pd")
    then some key_unsigned_pd
    else if same_text arg (codes "--power")
    then some key_power
    else none

-- The branches for an option without a value.
unfoldable pub parse_flag : List ℕ → Options → Run Options
parse_flag arg opt =
    if same_text arg (codes "--reset")
    then goes_on (record opt { reset = true })
    else if same_text arg (codes "--help") || same_text arg (codes "-h")
    then exited 0
    else exited 2

-- The tests behind the loop.
abbrev pub at_least_one : ℤ → ℤ
at_least_one x = if not_positive x then pos 1 else x

abbrev pub not_negative : ℤ → ℤ
not_negative (pos n) = pos n
not_negative (negsuc n) = pos 0

abbrev pub at_most_max_threads : ℤ → ℤ
at_most_max_threads (pos n) = if ltb max_threads n then pos max_threads else pos n
at_most_max_threads (negsuc n) = negsuc n

unfoldable pub normalize_options : Options → Options
normalize_options opt = record opt {
  min_ms = at_least_one opt.min_ms;
  iterations = not_negative opt.iterations;
  threads = at_most_max_threads opt.threads;
  size_mib = if opt.size_mib == 0 then 1 else opt.size_mib;
}

unfoldable pub resolve_thread_count : Options → ℕ → ℕ → Options
resolve_thread_count opt hvx_64b hvx_128b =
    let auto_threads = if hvx_128b == 0 then hvx_64b else hvx_128b in
    let chosen =
      if opt.threads_auto
      then (if auto_threads == 0 then pos 1 else signed32 auto_threads)
      else opt.threads in
    record opt { threads = at_most_max_threads (at_least_one chosen) }

-- The bytes of a memory buffer, on a host with 64-bit `size_t`; `none` where `main` returns 2.
unfoldable pub buffer_bytes : ℕ → Option ℕ
buffer_bytes size_mib =
    let bytes = u64 (u64 (size_mib * 1024) * 1024) in
    let bytes' = bytes / 128 * 128 in if ltb (2 ^ 31 - 1) bytes' then none else some bytes'

-- `strtol` and `strtoull` in base 0: the value and what is left behind the number.
module _ (strtol : List ℕ → ℤ × List ℕ) (strtoull : List ℕ → ℕ × List ℕ) where
  unfoldable pub parse_int_arg : List ℕ → Run ℤ
  parse_int_arg value =
      let (parsed, end) = strtol value in
      if unread value end then exited 2 else goes_on (to_int parsed)

  unfoldable pub parse_size_arg : List ℕ → Run ℕ
  parse_size_arg value =
      let (parsed, end) = strtoull value in
      if unread value end then exited 2 else goes_on (u64 parsed)

  unfoldable pub parse_value : Key → List ℕ → Options → Run Options
  parse_value key_scenario value opt = goes_on (record opt { scenario_filter = value })
  parse_value key_size_mib value opt =
      and_then (parse_size_arg value) (λ n. goes_on (record opt { size_mib = n }))
  parse_value key_min_ms value opt =
      and_then (parse_int_arg value) (λ n. goes_on (record opt { min_ms = n }))
  parse_value key_iterations value opt =
      and_then (parse_int_arg value) (λ n. goes_on (record opt { iterations = n }))
  parse_value key_threads value opt =
      and_then (parse_int_arg value)
        (λ n. goes_on (record opt { threads = n; threads_auto = not_positive n }))
  parse_value key_domain value opt =
      and_then (parse_int_arg value) (λ n. goes_on (record opt { domain = n }))
  parse_value key_unsigned_pd value opt =
      and_then (parse_unsigned_pd_arg value) (λ p. goes_on (record opt { unsigned_pd = p }))
  parse_value key_power value opt =
      and_then (parse_power_arg value) (λ p. goes_on (record opt { power_mode = p }))

  -- The loop over the arguments. An option that takes a value and is the last argument has none.
  unfoldable pub parse_args : List (List ℕ) → Options → Run Options
  parse_args [] opt = goes_on opt
  parse_args (arg ∷ []) opt = parse_flag arg opt
  parse_args (arg ∷ value ∷ rest) opt = elim (key_of arg) [
    | some key ↦ and_then (parse_value key value opt) (λ opt'. parse_args rest opt')
    | none ↦ and_then (parse_flag arg opt) (λ opt'. parse_args (value ∷ rest) opt')
  ]

  -- `cdsp_domain` is `CDSP_DOMAIN_ID` of remote.h. The arguments are those behind the program's name.
  unfoldable pub parse_options : ℤ → List (List ℕ) → Run Options
  parse_options cdsp_domain args =
      and_then
        (parse_args args (record {
          domain = cdsp_domain;
          unsigned_pd = pd_required;
          reset = false;
          min_ms = pos 300;
          iterations = pos 0;
          threads = pos 0;
          threads_auto = true;
          power_mode = power_max;
          size_mib = 64;
          scenario_filter = codes "all";
        }))
        (λ opt. goes_on (normalize_options opt))
