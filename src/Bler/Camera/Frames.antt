-- ===== src/Bler/Camera/Frames.antt =====
-- The camera thread of Robot/src/BLER.cpp changes the two frames only.
use lame.Prelude.{◌≡◌, refl, Option, none, some}
use lame.Bler.State.{Bler}
use lame.Bler.Camera.{camera_read_round}

module _ {Frame : Type 0} (r : Bler Frame) where
  pub record FramesOnly (r' : Bler Frame) : Type 0 where
    pub payload : r'.latest_drive_payload ≡ r.latest_drive_payload
    pub mode : r'.current_mode ≡ r.current_mode
    pub quality : r'.quality ≡ r.quality
    pub ai_addr : r'.ai_addr ≡ r.ai_addr

  pub camera_read_round-FramesOnly :
      (img img1 : Option Frame) → FramesOnly (camera_read_round r img img1)
  unfolding camera_read_round
  camera_read_round-FramesOnly none none = record {
    payload = refl;
    mode = refl;
    quality = refl;
    ai_addr = refl;
  }
  camera_read_round-FramesOnly none (some y) = record {
    payload = refl;
    mode = refl;
    quality = refl;
    ai_addr = refl;
  }
  camera_read_round-FramesOnly (some x) none = record {
    payload = refl;
    mode = refl;
    quality = refl;
    ai_addr = refl;
  }
  camera_read_round-FramesOnly (some x) (some y) = record {
    payload = refl;
    mode = refl;
    quality = refl;
    ai_addr = refl;
  }
