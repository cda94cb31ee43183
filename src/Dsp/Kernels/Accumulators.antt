-- ===== src/Dsp/Kernels/Accumulators.antt =====
-- The eight accumulators of the kernels of dsp/cdsp_peak_imp.c, the loop over them, and the constants
-- that the kernels splat.
use cdsp_peak.Base.{ℕ, zero, suc}

-- Eight variables `a0` to `a7` of one kind.
pub record Lanes {ℓ} (A : Type ℓ) : Type ℓ where
  pub l0 : A
  pub l1 : A
  pub l2 : A
  pub l3 : A
  pub l4 : A
  pub l5 : A
  pub l6 : A
  pub l7 : A

abbrev pub lanes {ℓ} : {A : Type ℓ} → A → A → A → A → A → A → A → A → Lanes A
lanes a b c d e f g h = record { l0 = a; l1 = b; l2 = c; l3 = d; l4 = e; l5 = f; l6 = g; l7 = h }

abbrev pub map_lanes {ℓ κ} : {A : Type ℓ} {B : Type κ} → (A → B) → Lanes A → Lanes B
map_lanes f a = lanes (f a.l0) (f a.l1) (f a.l2) (f a.l3) (f a.l4) (f a.l5) (f a.l6) (f a.l7)

abbrev pub zip_lanes {ℓ κ μ} :
    {A : Type ℓ} {B : Type κ} {C : Type μ} → (A → B → C) → Lanes A → Lanes B → Lanes C
zip_lanes f a b =
    lanes (f a.l0 b.l0) (f a.l1 b.l1) (f a.l2 b.l2) (f a.l3 b.l3) (f a.l4 b.l4) (f a.l5 b.l5)
      (f a.l6 b.l6) (f a.l7 b.l7)

-- `for (int i = 0; i < n; ++i) s = step(s)`
unfoldable pub iterate {ℓ} : {S : Type ℓ} → ℕ → (S → S) → S → S
iterate zero step s = s
iterate (suc n) step s = iterate n step (step s)

-- The constants that the kernels splat.
abbrev pub fp32_a : Lanes ℕ
fp32_a =
    lanes 0x3f800000 0x3f810000 0x3f820000 0x3f830000 0x3f840000 0x3f850000 0x3f860000 0x3f870000

abbrev pub fp32_b : Lanes ℕ
fp32_b =
    lanes 0x3f000000 0x3f010000 0x3f020000 0x3f030000 0x3f040000 0x3f050000 0x3f060000 0x3f070000

abbrev pub fp16_a : Lanes ℕ
fp16_a =
    lanes 0x3c003c00 0x3c103c10 0x3c203c20 0x3c303c30 0x3c403c40 0x3c503c50 0x3c603c60 0x3c703c70

abbrev pub fp16_b : Lanes ℕ
fp16_b =
    lanes 0x38003800 0x38103810 0x38203820 0x38303830 0x38403840 0x38503850 0x38603860 0x38703870

abbrev pub qf16_b : Lanes ℕ
qf16_b =
    lanes 0x10001000 0x10101010 0x10201020 0x10301030 0x10401040 0x10501050 0x10601060 0x10701070

abbrev pub int8_a : Lanes ℕ
int8_a =
    lanes 0x01020304 0x05060708 0x090a0b0c 0x0d0e0f10 0x11121314 0x15161718 0x191a1b1c 0x1d1e1f20

abbrev pub int8_b : Lanes ℕ
int8_b =
    lanes 0x01010101 0x02020202 0x03030303 0x04040404 0x05050505 0x06060606 0x07070707 0x08080808
