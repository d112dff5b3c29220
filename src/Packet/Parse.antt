-- ===== src/Packet/Parse.antt =====
-- Robot/include/Packet.h: the deserialize functions. The payload pointer is an index into the
-- array, `none` for NULL; the out-parameter is `none` for NULL and else the struct that it points at.
pub mod Fields
pub mod Total
use lame.Prelude.{ℕ, ◌+◌, ◌*◌, List, Option, none, some, Outcome, ok, ◌>>=◌, load, u16, bit_or}
use lame.Packet.Payloads.{
  DrivePayload, LocationPayload, EncoderPayload, CameraQualityPayload, CameraLocationPayload,
}

pub parse_drive_payload : List ℕ → Option ℕ → Option DrivePayload → Outcome (Option DrivePayload)
parse_drive_payload buffer none drive = ok drive
parse_drive_payload buffer (some p) none = ok none
parse_drive_payload buffer (some p) (some old) = do
  left ← load buffer p
  right ← load buffer (p + 1)
  actuator ← load buffer (p + 2)
  scooper ← load buffer (p + 3)
  vibrator ← load buffer (p + 4)
  ok (
      some (record {
        left = left;
        right = right;
        vibrator = vibrator;
        actuator = actuator;
        scooper = scooper;
      }))

-- `(payload[k] << 8) | payload[k + 1]`, stored in an `int16_t`.
pub load_half : List ℕ → ℕ → Outcome ℕ
load_half buffer i = do
  hi ← load buffer i
  lo ← load buffer (i + 1)
  ok (u16 (bit_or (hi * 256) lo))

pub parse_location_payload :
    List ℕ → Option ℕ → Option LocationPayload → Outcome (Option LocationPayload)
parse_location_payload buffer none loc = ok loc
parse_location_payload buffer (some p) none = ok none
parse_location_payload buffer (some p) (some old) = do
  x ← load_half buffer p
  y ← load_half buffer (p + 2)
  heading ← load_half buffer (p + 4)
  ok (some (record { x = x; y = y; heading = heading }))

pub parse_encoder_payload :
    List ℕ → Option ℕ → Option EncoderPayload → Outcome (Option EncoderPayload)
parse_encoder_payload buffer none enc = ok enc
parse_encoder_payload buffer (some p) none = ok none
parse_encoder_payload buffer (some p) (some old) = do
  front_left ← load_half buffer p
  front_right ← load_half buffer (p + 2)
  back_left ← load_half buffer (p + 4)
  back_right ← load_half buffer (p + 6)
  left_actuator ← load_half buffer (p + 8)
  right_actuator ← load_half buffer (p + 10)
  ok (
      some (record {
        front_left = front_left;
        front_right = front_right;
        back_left = back_left;
        back_right = back_right;
        left_actuator = left_actuator;
        right_actuator = right_actuator;
      }))

pub parse_quality_payload :
    List ℕ → Option ℕ → Option CameraQualityPayload → Outcome (Option CameraQualityPayload)
parse_quality_payload buffer none cam = ok cam
parse_quality_payload buffer (some p) none = ok none
parse_quality_payload buffer (some p) (some old) =
    load buffer p >>= λ quality. ok (some (record { quality = quality }))

pub parse_camera_location_payload :
    List ℕ → Option ℕ → Option CameraLocationPayload → Outcome (Option CameraLocationPayload)
parse_camera_location_payload buffer none clp = ok clp
parse_camera_location_payload buffer (some p) none = ok none
parse_camera_location_payload buffer (some p) (some old) = do
  id ← load buffer p
  angle ← load buffer (p + 1)
  ok (some (record { id = id; angle = angle }))
