-- ===== src/Tests/Tags.antt =====
-- The locator of tags at concrete inputs.
use lame.Prelude.{ℕ, ◌+◌, ◌-◌, ◌*◌, ◌/◌, refl, ltb, [], ◌∷◌}
use lame.Prelude.Int.{pos, pos_part}
use lame.Locator.{Detection}
use lame.Locator.Numbers.{Floats}
use lame.Locator.Detect.{OpenCv, IsSized, prepare, get_spherical_from_mat}
use lame.Locator.Detect.Picture.{IsAligned, prepare-IsAligned}
use lame.Locator.Detect.Tags.{Located, get_spherical_from_mat-Located}

-- A matrix by its rows and columns.
abbrev opencv : OpenCv (ℕ × ℕ)
opencv = record {
  has_data = λ m. ltb 0 m.0;
  rows = λ m. m.0;
  cols = λ m. m.1;
  bgr_to_gray = λ m. m;
  zeros = λ r c. (r, c);
  hconcat = λ a b. (a.0, a.1 + b.1);
}

opencv-IsSized : IsSized (ℕ × ℕ) ⦃cv = opencv⦄
opencv-IsSized = record {
  rows-bgr_to_gray = λ m. refl;
  cols-bgr_to_gray = λ m. refl;
  rows-zeros = λ r c. refl;
  cols-zeros = λ r c. refl;
  rows-hconcat = λ a b e. refl;
  cols-hconcat = λ a b e. refl;
}

prepare-IsAligned_example : IsAligned ⦃cv = opencv⦄ (480, 640) (prepare ⦃cv = opencv⦄ (480, 640))
prepare-IsAligned_example = prepare-IsAligned ⦃cv = opencv⦄ opencv-IsSized (480, 640)

-- Numbers without a fraction or a sign.
abbrev whole : Floats ℕ ℕ
whole = record {
  widen = λ x. x;
  narrow = λ x. x;
  d_of_int = λ x. pos_part x;
  d_half = 1;
  d_sub = λ x y. x - y;
  d_mul = λ x y. x * y;
  d_div = λ x y. x / y;
  f_of_int = λ x. pos_part x;
  f_neg = λ x. 0 - x;
  f_add = λ x y. x + y;
  f_sub = λ x y. x - y;
  f_mul = λ x y. x * y;
  f_div = λ x y. x / y;
  f_gt = λ x y. ltb y x;
  sqrtf = λ x. x;
  powf = λ x y. x * x;
  tanf = λ x. x;
  atanf = λ x. x;
}

abbrev tag : Detection ℕ ℕ
tag = record {
  id = pos 7;
  homography = 1;
  c = record { x = 10; y = 10 };
  p0 = record { x = 15; y = 15 };
  p1 = record { x = 5; y = 15 };
  p2 = record { x = 12; y = 12 };
  p3 = record { x = 15; y = 5 };
}

abbrev get : ℕ → ℕ → ℕ → ℕ
get m i j = m + i + j

get_spherical_from_mat-Located_example :
    Located ⦃cv = opencv⦄ whole get
      (λ im. tag ∷ [])
      1
      2
      (480, 640)
      []
      (get_spherical_from_mat ⦃cv = opencv⦄ whole get (λ im. tag ∷ []) 1 2 (480, 640) [])
get_spherical_from_mat-Located_example =
    get_spherical_from_mat-Located ⦃cv = opencv⦄ whole get (λ im. tag ∷ []) 1 2 (480, 640) []
