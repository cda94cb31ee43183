-- ===== src/Host/Arch/Laws.antt =====
-- The two ways to report an architecture version.
use cdsp_peak.Base.{
  ℕ, ◌+◌, ◌*◌, ◌%◌, ◌^◌, ◌≤◌, ◌<◌, ◌≡◌, refl, sym, ap, ◌∙◌, arith, Bool, Option, none, some, List,
}
use cdsp_peak.Base.Int.{ℤ}
use cdsp_peak.Host.Arch.{Domains, normalize_hexagon_arch, skel_arch_suffix, skel_of, make_uri}

-- `tens` `ones` as the halves of the lowest byte.
abbrev pub packed : ℕ → ℕ → ℕ → ℕ
packed upper tens ones = upper * 2 ^ 8 + tens * 2 ^ 4 + ones

packed_low :
    (upper tens ones : ℕ) → tens ≤ 9 → ones ≤ 9 → packed upper tens ones % 2 ^ 8 ≡ tens * 16 + ones
packed_low upper tens ones high digit = omega arith

normalize_hexagon_arch-packed :
    (upper tens ones : ℕ)
    → 6 ≤ tens
    → tens ≤ 9
    → ones ≤ 9
    → 99 < packed upper tens ones
    → normalize_hexagon_arch (packed upper tens ones) ≡ tens * 10 + ones
unfolding normalize_hexagon_arch
normalize_hexagon_arch-packed upper tens ones low high digit above = ground arith

normalize_hexagon_arch-plain :
    (tens ones : ℕ)
    → 6 ≤ tens
    → tens ≤ 9
    → ones ≤ 9
    → normalize_hexagon_arch (tens * 10 + ones) ≡ tens * 10 + ones
unfolding normalize_hexagon_arch
normalize_hexagon_arch-plain tens ones low high digit = ground arith

skel_arch_suffix-packed :
    (upper tens ones : ℕ)
    → 6 ≤ tens
    → tens ≤ 9
    → ones ≤ 9
    → 99 < packed upper tens ones
    → skel_arch_suffix (packed upper tens ones) ≡ skel_arch_suffix (tens * 10 + ones)
unfolding skel_arch_suffix
skel_arch_suffix-packed upper tens ones low high digit above = ap skel_of (
    normalize_hexagon_arch-packed upper tens ones low high digit above
    ∙ sym (normalize_hexagon_arch-plain tens ones low high digit))

-- The version counts only through its library.
make_uri_same :
    (d : Domains) (base : Option (List ℕ)) (there : ℕ → Bool) (enomem enotsup domain : ℤ) (a b : ℕ)
    → skel_arch_suffix a ≡ skel_arch_suffix b
    → make_uri d base there enomem enotsup domain a ≡ make_uri d base there enomem enotsup domain b
unfolding make_uri
make_uri_same d (some text) there enomem enotsup domain a b e = refl
make_uri_same d none there enomem enotsup domain a b e = rw (make_uri, e) refl

-- A version from 60 to 99 that is reported as the two digits in the halves of the lowest byte, with
-- anything above it, gives the URI and the result that its plain number gives, unless the packed
-- value is itself at most 99 and so is read as a plain number.
pub make_uri-packed :
    (d : Domains) (base : Option (List ℕ)) (there : ℕ → Bool) (enomem enotsup domain : ℤ)
    (upper tens ones : ℕ)
    → 6 ≤ tens
    → tens ≤ 9
    → ones ≤ 9
    → 99 < packed upper tens ones
    → make_uri d base there enomem enotsup domain (packed upper tens ones)
      ≡ make_uri d base there enomem enotsup domain (tens * 10 + ones)
make_uri-packed d base there enomem enotsup domain upper tens ones low high digit above =
    make_uri_same d base there enomem enotsup domain (packed upper tens ones) (tens * 10 + ones)
      (skel_arch_suffix-packed upper tens ones low high digit above)
