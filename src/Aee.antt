-- ===== src/Aee.antt =====
-- The error codes of AEEStdErr.h, a header of the Hexagon SDK: its values are a parameter of the
-- model. What the code relies on is that success is 0 and that the errors are not, since it tests
-- every result by `if (err)`.
use cdsp_peak.Base.{◌≡◌, true}
use cdsp_peak.Base.Int.{ℤ, pos, nonzero}

abbrev pub aee_success : ℤ
aee_success = pos 0

pub record AeeCodes : Type 0 where
  pub ebadparm : ℤ
  pub eunsupported : ℤ
  pub enomemory : ℤ
  pub efailed : ℤ
  pub ebadparm_error : nonzero ebadparm ≡ true
  pub eunsupported_error : nonzero eunsupported ≡ true
  pub enomemory_error : nonzero enomemory ≡ true
  pub efailed_error : nonzero efailed ≡ true
