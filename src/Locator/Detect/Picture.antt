-- ===== src/Locator/Detect/Picture.antt =====
-- The image that Robot/src/AprilTagsLocator.cpp hands to the detector.
use lame.Prelude.{◌+◌, ◌-◌, ◌%◌, ◌≤◌, ◌<◌, ◌≡◌, sym, ◌∙◌, refl, arith}
use lame.Locator.Detect.{OpenCv, IsSized, ImageU8, stride_of, prepare}

-- The rows of the padded image follow each other without a gap, in a multiple of 96 bytes, and the
-- camera's columns are all in it.
pub record IsAligned {Mat : Type 0} ⦃cv : OpenCv Mat⦄ (mat : Mat) (im : ImageU8 Mat) : Type 0 where
  pub gapless : im.width ≡ im.stride
  pub aligned : im.stride % 96 ≡ 0
  pub wide : cv.cols mat < im.stride
  pub tight : im.stride ≤ cv.cols mat + 96
  pub high : im.height ≡ cv.rows mat
  pub real_width : cv.cols im.buf ≡ im.width
  pub real_height : cv.rows im.buf ≡ im.height

-- With OpenCV's documented sizes, any image is padded to a gapless one whose rows are a multiple of
-- 96 bytes, the camera's image among them: at least one column and at most 96 are added.
pub prepare-IsAligned :
    {Mat : Type 0} ⦃cv : OpenCv Mat⦄ (laws : IsSized Mat) (mat : Mat) → IsAligned mat (prepare mat)
unfolding prepare stride_of
prepare-IsAligned ⦃cv⦄ laws mat =
    let gray = cv.bgr_to_gray mat in
    let stride = stride_of (cv.cols mat) in
    let pad = cv.zeros (cv.rows gray) (stride - cv.cols gray) in
    let same = sym (laws.rows-zeros (cv.rows gray) (stride - cv.cols gray)) in
    let columns = laws.cols-hconcat gray pad same in
    let added = laws.cols-zeros (cv.rows gray) (stride - cv.cols gray) in
    let kept = laws.cols-bgr_to_gray mat in
    let rows = laws.rows-hconcat gray pad same ∙ laws.rows-bgr_to_gray mat in
    record {
      gapless = omega (arith, columns, added, kept);
      aligned = omega arith;
      wide = omega arith;
      tight = omega arith;
      high = rows;
      real_width = refl;
      real_height = refl;
    }
