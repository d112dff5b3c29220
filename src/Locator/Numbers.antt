-- ===== src/Locator/Numbers.antt =====
-- All that Robot/src/AprilTagsLocator.cpp does with `float` (F) and `double` (D).
use lame.Prelude.{◌≡◌, Bool, true, false}
use lame.Prelude.Int.{ℤ}

pub record Floats {ℓ} (D F : Type ℓ) : Type ℓ where
  pub widen : F → D
  pub narrow : D → F
  pub d_of_int : ℤ → D
  pub d_half : D
  pub d_sub : D → D → D
  pub d_mul : D → D → D
  pub d_div : D → D → D
  pub f_of_int : ℤ → F
  pub f_neg : F → F
  pub f_add : F → F → F
  pub f_sub : F → F → F
  pub f_mul : F → F → F
  pub f_div : F → F → F
  pub f_gt : F → F → Bool
  pub sqrtf : F → F
  pub powf : F → F → F
  pub tanf : F → F
  pub atanf : F → F

-- What is used of the comparison, which also holds of NaN.
pub record IsStrict {ℓ} {D F : Type ℓ} (w : Floats D F) : Type ℓ where
  pub gt_asym : (x y : F) → w.f_gt x y ≡ true → w.f_gt y x ≡ false
