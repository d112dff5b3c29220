-- ===== src/Locator/Turned.antt =====
-- The rotation of a tag in Robot/src/AprilTagsLocator.cpp, from the two corners that it measures.
use lame.Prelude.{ℕ, ◌≡◌, refl, true}
use lame.Locator.Numbers.{Floats, IsStrict}
use lame.Locator.{
  Detection, TagDetection, Camera, corner_distance, order_halves, shape_of, rotation_of, locate,
}

-- The detection with the two measured corners exchanged.
abbrev pub turned : {D M : Type 0} → Detection D M → Detection D M
turned det = record det { p0 = det.p2; p2 = det.p0 }

module _ {D F M : Type 0} (w : Floats D F) (matd_get : M → ℕ → ℕ → D) where
  -- `x` is seen in the same direction and as far away as `y`, but turned the other way, by an
  -- angle `angle`.
  pub record IsMirrored (x y : TagDetection D) : Type 0 where
    pub angle : F
    pub azimuth : x.azimuth ≡ y.azimuth
    pub elevation : x.elevation ≡ y.elevation
    pub distance : x.distance ≡ y.distance
    pub forth : y.rotation ≡ w.widen angle
    pub back : x.rotation ≡ w.widen (w.f_neg angle)

  -- If corner 0 is farther from the centre than corner 2, exchanging the two turns the tag the
  -- other way by the same angle, and changes neither its direction nor its distance.
  pub locate-IsMirrored :
      IsStrict w
      → (cam : Camera F) (det : Detection D M)
      → w.f_gt (corner_distance w det.p0 det.c) (corner_distance w det.p2 det.c) ≡ true
      → IsMirrored (locate w matd_get cam det) (locate w matd_get cam (turned det))
  unfolding locate order_halves rotation_of
  locate-IsMirrored strict cam det farther =
      let nearer =
        strict.gt_asym (corner_distance w det.p0 det.c) (corner_distance w det.p2 det.c) farther in
      let s = shape_of w cam (corner_distance w det.p2 det.c) (corner_distance w det.p0 det.c) in
      record {
        angle = w.atanf (w.f_div s.a s.b);
        azimuth = refl;
        elevation = refl;
        distance = rw (farther, nearer);
        forth = rw nearer;
        back = rw farther;
      }
