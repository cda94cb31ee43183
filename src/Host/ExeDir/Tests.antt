-- ===== src/Host/ExeDir/Tests.antt =====
-- A path with two slashes.
use cdsp_peak.Base.{◌≡◌, inr, refl, inl, codes, split_last}
use cdsp_peak.Base.Int.{negsuc}
use cdsp_peak.Host.ExeDir.{Errno, executable_dir, path_max}

abbrev errno : Errno
errno = record {
  einval = negsuc 21;
  enametoolong = negsuc 35;
  enomem = negsuc 11;
  enotsup = negsuc 94;
  enomem_error = refl;
}

before_the_slash :
    executable_dir errno (λ n. inr (codes "/opt/cdsp_peak")) path_max ≡ inr (codes "/opt")
unfolding executable_dir split_last
before_the_slash = refl

-- 13 bytes and the zero do not fit into 13.
too_long : executable_dir errno (λ n. inr (codes "/opt/cdsp_peak")) 14 ≡ inl (negsuc 35)
unfolding executable_dir
too_long = refl
