-- ===== src/Host/Arch/Tests.antt =====
-- The URI of v79, reported plainly and packed.
use cdsp_peak.Base.{◌≡◌, refl, arith, true, none, some, codes}
use cdsp_peak.Base.Int.{pos, negsuc}
use cdsp_peak.Host.Arch.{Domains, make_uri, skel_arch_suffix, v68, normalize_hexagon_arch}
use cdsp_peak.Host.Arch.Laws.{make_uri-packed}

abbrev domains : Domains
domains = record {
  adsp_domain_id = pos 0;
  mdsp_domain_id = pos 1;
  sdsp_domain_id = pos 2;
  cdsp_domain_id = pos 3;
  cdsp1_domain_id = pos 4;
  adsp_domain = codes "&_dom=adsp";
  mdsp_domain = codes "&_dom=mdsp";
  sdsp_domain = codes "&_dom=sdsp";
  cdsp_domain = codes "&_dom=cdsp";
  cdsp1_domain = codes "&_dom=cdsp1";
}

packed_v68 : skel_arch_suffix 0x8c68 ≡ some v68
unfolding skel_arch_suffix normalize_hexagon_arch
packed_v68 = refl

make_uri-packed_example :
    make_uri domains none (λ n. true) (negsuc 11) (negsuc 94) (pos 3) 0x8c79
    ≡ make_uri domains none (λ n. true) (negsuc 11) (negsuc 94) (pos 3) 79
make_uri-packed_example =
    make_uri-packed domains none (λ n. true) (negsuc 11) (negsuc 94) (pos 3) 0x8c 7 9 (omega arith)
      (omega arith) (omega arith) (omega arith)
