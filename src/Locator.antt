-- ===== src/Locator.antt =====
-- Robot/src/AprilTagsLocator.cpp and Robot/include/AprilTagsLocator.hpp.
pub mod Numbers
pub mod Detect
pub mod Turned
use lame.Prelude.{ℕ, Bool, true, false, List, [], ◌∷◌, Option, none, some, if◌then◌else◌}
use lame.Prelude.Int.{ℤ, pos}
use lame.Locator.Numbers.{Floats}

pub record Vec2d (D : Type 0) : Type 0 where
  pub x : D
  pub y : D

-- `apriltag_detection_t` of the AprilTags library. `M` stands for its matrices.
pub record Detection (D M : Type 0) : Type 0 where
  pub id : ℤ
  pub homography : M
  pub c : Vec2d D
  pub p0 : Vec2d D
  pub p1 : Vec2d D
  pub p2 : Vec2d D
  pub p3 : Vec2d D

pub record TagDetection (D : Type 0) : Type 0 where
  pub azimuth : D
  pub elevation : D
  pub rotation : D
  pub distance : D
  pub id : D
  pub center : Vec2d D
  pub corners : List (Vec2d D)
  pub homography : List (List D)

-- `short_half`, `long_half` and `swapped` after the exchange.
pub record Halves (F : Type 0) : Type 0 where
  pub short_half : F
  pub long_half : F
  pub swapped : Bool

-- The camera's numbers that the loop uses.
pub record Camera (F : Type 0) : Type 0 where
  pub half_fov : F
  pub x_center : F
  pub y_center : F
  pub tag_size : F

-- The numbers of one tag: its distance in pixels, `a` and `b`.
pub record Shape (F : Type 0) : Type 0 where
  pub pixel_distance : F
  pub a : F
  pub b : F

-- `matd_get` is the library's.
pub homography_of : {D M : Type 0} → (M → ℕ → ℕ → D) → M → List (List D)
homography_of matd_get h =
    (matd_get h 0 0 ∷ matd_get h 0 1 ∷ matd_get h 0 2 ∷ [])
    ∷ (matd_get h 1 0 ∷ matd_get h 1 1 ∷ matd_get h 1 2 ∷ [])
    ∷ (matd_get h 2 0 ∷ matd_get h 2 1 ∷ matd_get h 2 2 ∷ [])
    ∷ []

module _ {D F : Type 0} (w : Floats D F) where
  open w use {
    widen, narrow, d_of_int, d_half, d_sub, d_mul, d_div, f_of_int, f_neg, f_add, f_sub, f_mul,
    f_div, f_gt, sqrtf, powf, tanf, atanf,
  }

  -- `sqrtf(powf(p[0] - c[0], 2) + powf(p[1] - c[1], 2))`
  unfoldable pub corner_distance : Vec2d D → Vec2d D → F
  corner_distance p c = sqrtf (
      f_add (powf (narrow (d_sub p.x c.x)) (f_of_int (pos 2)))
        (powf (narrow (d_sub p.y c.y)) (f_of_int (pos 2))))

  pub order_halves : F → F → Halves F
  order_halves first second =
      if f_gt first second
      then record { short_half = second; long_half = first; swapped = true }
      else record { short_half = first; long_half = second; swapped = false }

  pub shape_of : Camera F → F → F → Shape F
  shape_of cam short_half long_half =
      let long_angle = atanf (f_mul (f_div long_half cam.x_center) (tanf cam.half_fov)) in
      let pixel_distance = f_div long_half (tanf long_angle) in
      let a =
        f_mul pixel_distance (f_div (f_sub long_half short_half) (f_add long_half short_half)) in
      let b = f_mul (f_div long_half pixel_distance) (f_sub pixel_distance a) in
      record { pixel_distance = pixel_distance; a = a; b = b }

  pub azimuth_of : Camera F → Vec2d D → D
  azimuth_of cam c = widen (
      atanf (
        narrow (
          d_mul (d_div (d_sub c.x (widen cam.x_center)) (widen cam.x_center))
            (widen (tanf cam.half_fov)))))

  pub elevation_of : Camera F → Vec2d D → D
  elevation_of cam c = widen (
      atanf (
        narrow (
          d_mul (d_div (d_sub (widen cam.y_center) c.y) (widen cam.x_center))
            (widen (tanf cam.half_fov)))))

  pub distance_of : Camera F → Shape F → D
  distance_of cam s =
      let pixel_tag_size =
        sqrtf (f_add (powf s.a (f_of_int (pos 2))) (powf s.b (f_of_int (pos 2)))) in
      d_mul (d_mul (widen s.pixel_distance) d_half) (widen (f_div cam.tag_size pixel_tag_size))

  pub rotation_of : Shape F → Bool → D
  rotation_of s swapped =
      widen (if swapped then f_neg (atanf (f_div s.a s.b)) else atanf (f_div s.a s.b))

  module _ {M : Type 0} (matd_get : M → ℕ → ℕ → D) where
    -- The body of the loop over the detections: what is pushed to `tags`.
    pub locate : Camera F → Detection D M → TagDetection D
    unfolding corner_distance order_halves
    locate cam det =
        let halves = order_halves (corner_distance det.p0 det.c) (corner_distance det.p2 det.c) in
        let s = shape_of cam halves.short_half halves.long_half in
        record {
          azimuth = azimuth_of cam det.c;
          elevation = elevation_of cam det.c;
          rotation = rotation_of s halves.swapped;
          distance = distance_of cam s;
          id = d_of_int det.id;
          center = det.c;
          corners = det.p0 ∷ det.p1 ∷ det.p2 ∷ det.p3 ∷ [];
          homography = homography_of matd_get det.homography;
        }
