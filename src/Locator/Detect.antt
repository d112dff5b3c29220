-- ===== src/Locator/Detect.antt =====
-- `GetSphericalFromMat` of Robot/src/AprilTagsLocator.cpp around its loop, and the object's life.
pub mod Picture
pub mod Tags
use lame.Prelude.{
  ℕ, ◌+◌, ◌-◌, ◌%◌, ◌≡◌, Bool, true, false, List, [], ◌∷◌, ◌++◌, Option, none, some, if◌then◌else◌,
}
use lame.Prelude.Int.{ℤ, pos}
use lame.Locator.Numbers.{Floats}
use lame.Locator.{Detection, TagDetection, Camera, locate}

abbrev pub default_alignment : ℕ
default_alignment = 96

-- What the code calls of OpenCV.
pub record OpenCv (Mat : Type 0) : Type 0 where
  pub has_data : Mat → Bool
  pub rows : Mat → ℕ
  pub cols : Mat → ℕ
  pub bgr_to_gray : Mat → Mat
  pub zeros : ℕ → ℕ → Mat
  pub hconcat : Mat → Mat → Mat

-- What OpenCV documents of these calls.
pub record IsSized (Mat : Type 0) ⦃cv : OpenCv Mat⦄ : Type 0 where
  pub rows-bgr_to_gray : (m : Mat) → cv.rows (cv.bgr_to_gray m) ≡ cv.rows m
  pub cols-bgr_to_gray : (m : Mat) → cv.cols (cv.bgr_to_gray m) ≡ cv.cols m
  pub rows-zeros : (r c : ℕ) → cv.rows (cv.zeros r c) ≡ r
  pub cols-zeros : (r c : ℕ) → cv.cols (cv.zeros r c) ≡ c
  pub rows-hconcat : (a b : Mat) → cv.rows a ≡ cv.rows b → cv.rows (cv.hconcat a b) ≡ cv.rows a
  pub cols-hconcat :
      (a b : Mat) → cv.rows a ≡ cv.rows b → cv.cols (cv.hconcat a b) ≡ cv.cols a + cv.cols b

-- `image_u8_t` of the AprilTags library.
pub record ImageU8 (Mat : Type 0) : Type 0 where
  pub width : ℕ
  pub height : ℕ
  pub stride : ℕ
  pub buf : Mat

-- `stride += DEFAULT_ALIGNMENT - (stride % DEFAULT_ALIGNMENT)`
pub stride_of : ℕ → ℕ
stride_of cols = cols + (default_alignment - cols % default_alignment)

module _ {Mat : Type 0} ⦃cv : OpenCv Mat⦄ where
  -- The image for the detector.
  pub prepare : Mat → ImageU8 Mat
  prepare mat =
      let filtered = cv.bgr_to_gray mat in
      let stride = stride_of (cv.cols mat) in
      let compensate = cv.zeros (cv.rows filtered) (stride - cv.cols filtered) in
      let adjusted_stride_image = cv.hconcat filtered compensate in
      record {
        width = cv.cols adjusted_stride_image;
        height = cv.rows adjusted_stride_image;
        stride = stride;
        buf = adjusted_stride_image;
      }

-- What is returned, `tags` afterwards, and how many arrays of detections the detector gave and how
-- many were handed back to it.
pub record Found (D : Type 0) : Type 0 where
  pub result : Bool
  pub tags : List (TagDetection D)
  pub given : ℕ
  pub destroyed : ℕ

module _ {D F M Mat : Type 0} ⦃cv : OpenCv Mat⦄ (w : Floats D F) (matd_get : M → ℕ → ℕ → D)
    (detect : ImageU8 Mat → List (Detection D M)) where
  -- `half_fov`, `x_center` and `y_center` of the image, with the object's two fields.
  pub camera_of : F → F → ImageU8 Mat → Camera F
  camera_of hfov tag_size im =
      let half = λ (x : D). w.narrow (w.d_div x (w.d_of_int (pos 2))) in
      record {
        half_fov = half (w.widen hfov);
        x_center = half (w.d_of_int (pos im.width));
        y_center = half (w.d_of_int (pos im.height));
        tag_size = tag_size;
      }

  -- The loop over the detections.
  pub push_tags : Camera F → List (Detection D M) → List (TagDetection D) → List (TagDetection D)
  push_tags cam [] tags = tags
  push_tags cam (det ∷ detections) tags =
      push_tags cam detections (tags ++ locate w matd_get cam det ∷ [])

  pub finish_detections :
      F → F → ImageU8 Mat → List (Detection D M) → List (TagDetection D) → Found D
  finish_detections hfov tag_size im [] tags = record {
    result = false;
    tags = tags;
    given = 1;
    destroyed = 1;
  }
  finish_detections hfov tag_size im (det ∷ detections) tags = record {
    result = true;
    tags = push_tags (camera_of hfov tag_size im) (det ∷ detections) tags;
    given = 1;
    destroyed = 1;
  }

  pub get_spherical_from_mat : F → F → Mat → List (TagDetection D) → Found D
  get_spherical_from_mat hfov tag_size mat tags =
      if cv.has_data mat
      then finish_detections hfov tag_size (prepare mat) (detect (prepare mat)) tags
      else record { result = false; tags = tags; given = 0; destroyed = 0 }

-- `tf` and `td`, as the library's addresses.
pub record Locator (F : Type 0) : Type 0 where
  pub hfov : F
  pub tag_size : F
  pub tf : Option ℕ
  pub td : Option ℕ

-- What the constructor and the destructor hand to the library.
pub data LibraryCall : Type 0 where
  add_family : Option ℕ → Option ℕ → LibraryCall
  detector_destroy : ℕ → LibraryCall
  tag36h11_destroy : ℕ → LibraryCall

-- `tf` and `td` are what `tag36h11_create` and `apriltag_detector_create` answer, `none` for NULL.
pub construct : {F : Type 0} → F → F → Option ℕ → Option ℕ → Locator F × List LibraryCall
construct hfov tag_size tf td =
    (record { hfov = hfov; tag_size = tag_size; tf = tf; td = td }, add_family td tf ∷ [])

pub destroy_detector : Option ℕ → List LibraryCall
destroy_detector none = []
destroy_detector (some td) = detector_destroy td ∷ []

pub destroy_family : Option ℕ → List LibraryCall
destroy_family none = []
destroy_family (some tf) = tag36h11_destroy tf ∷ []

-- The destructor.
pub destroy : {F : Type 0} → Locator F → List LibraryCall
destroy l = destroy_detector l.td ++ destroy_family l.tf
