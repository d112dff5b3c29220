-- ===== src/Locator/Detect/Tags.antt =====
-- What `GetSphericalFromMat` of Robot/src/AprilTagsLocator.cpp returns.
use mathlib.Core.List.{append_assoc, append-nil}
use lame.Prelude.{
  ℕ, ◌≡◌, ◌≢◌, refl, ap, sym, ◌∙◌, true, false, List, [], ◌∷◌, ◌++◌, map, Bool-cases, inl, inr,
}
use lame.Locator.Numbers.{Floats}
use lame.Locator.{Detection, TagDetection, Camera, locate}
use lame.Locator.Detect.{
  OpenCv, ImageU8, prepare, Found, camera_of, push_tags, finish_detections, get_spherical_from_mat,
}

module _ {D F M Mat : Type 0} ⦃cv : OpenCv Mat⦄ (w : Floats D F) (matd_get : M → ℕ → ℕ → D)
    (detect : ImageU8 Mat → List (Detection D M)) where
  push_tags_lem :
      (cam : Camera F) (detections : List (Detection D M)) (tags : List (TagDetection D))
      → push_tags w matd_get detect cam detections tags
        ≡ tags ++ map (locate w matd_get cam) detections
  unfolding push_tags
  push_tags_lem cam [] tags = sym (append-nil tags)
  push_tags_lem cam (det ∷ detections) tags =
      push_tags_lem cam detections (tags ++ locate w matd_get cam det ∷ [])
      ∙ append_assoc tags (locate w matd_get cam det ∷ []) (map (locate w matd_get cam) detections)

  -- The three ways in which a call can end.
  pub data Located (hfov tag_size : F) (mat : Mat) (tags : List (TagDetection D)) (f : Found D)
      : Type 0 where
    no_image :
        cv.has_data mat ≡ false
        → f ≡ record { result = false; tags = tags; given = 0; destroyed = 0 }
        → Located hfov tag_size mat tags f
    no_tag :
        cv.has_data mat ≡ true
        → detect (prepare mat) ≡ []
        → f ≡ record { result = false; tags = tags; given = 1; destroyed = 1 }
        → Located hfov tag_size mat tags f
    some_tags :
        cv.has_data mat ≡ true
        → detect (prepare mat) ≢ []
        → f ≡ record {
          result = true;
          tags =
              tags
              ++ map
                  (locate w matd_get (camera_of w matd_get detect hfov tag_size (prepare mat)))
                  (detect (prepare mat));
          given = 1;
          destroyed = 1;
        }
        → Located hfov tag_size mat tags f

  finish_detections-Located :
      (hfov tag_size : F) (mat : Mat) (tags : List (TagDetection D))
      (detections : List (Detection D M))
      → cv.has_data mat ≡ true
      → detect (prepare mat) ≡ detections
      → Located hfov tag_size mat tags
          (finish_detections w matd_get detect hfov tag_size (prepare mat) detections tags)
  unfolding finish_detections
  finish_detections-Located hfov tag_size mat tags [] has e = no_tag has e refl
  finish_detections-Located hfov tag_size mat tags (det ∷ detections) has e =
      let cam = camera_of w matd_get detect hfov tag_size (prepare mat) in
      let pushed = push_tags_lem cam (det ∷ detections) tags in
      some_tags has (λ none_there. absurd (cc (e, none_there)))
        (rw e (
          ap
            (λ (t : List (TagDetection D)). record {
              result = true;
              tags = t;
              given = 1;
              destroyed = 1;
            })
            pushed))

  -- False is returned, and `tags` stays, exactly where there is no image or no tag in it; otherwise
  -- one tag for each detection is appended, in the detector's order. Every array of detections that
  -- the detector gives is handed back once, on each way out.
  pub get_spherical_from_mat-Located :
      (hfov tag_size : F) (mat : Mat) (tags : List (TagDetection D))
      → Located hfov tag_size mat tags
          (get_spherical_from_mat w matd_get detect hfov tag_size mat tags)
  unfolding get_spherical_from_mat
  get_spherical_from_mat-Located hfov tag_size mat tags = elim (Bool-cases (cv.has_data mat)) [
    | inr none_there ↦ no_image none_there (rw none_there)
    | inl has ↦ rw has (finish_detections-Located hfov tag_size mat tags _ has refl)
  ]
