-- ===== src/Packet/Payloads.antt =====
-- Robot/include/Packet.h: the payload structs. A signed field is its bit pattern: below 256 for an
-- `int8_t`, below 65536 for an `int16_t`.
use lame.Prelude.{ℕ, ◌<◌}

pub record DrivePayload : Type 0 where
  pub left : ℕ
  pub right : ℕ
  pub vibrator : ℕ
  pub actuator : ℕ
  pub scooper : ℕ

pub record LocationPayload : Type 0 where
  pub x : ℕ
  pub y : ℕ
  pub heading : ℕ

pub record EncoderPayload : Type 0 where
  pub front_left : ℕ
  pub front_right : ℕ
  pub back_left : ℕ
  pub back_right : ℕ
  pub left_actuator : ℕ
  pub right_actuator : ℕ

pub record CameraQualityPayload : Type 0 where
  pub quality : ℕ

pub record CameraLocationPayload : Type 0 where
  pub id : ℕ
  pub angle : ℕ

-- The fields fit their C types.
pub record FitsLocation (p : LocationPayload) : Type 0 where
  pub x : p.x < 65536
  pub y : p.y < 65536
  pub heading : p.heading < 65536

pub record FitsEncoder (p : EncoderPayload) : Type 0 where
  pub front_left : p.front_left < 65536
  pub front_right : p.front_right < 65536
  pub back_left : p.back_left < 65536
  pub back_right : p.back_right < 65536
  pub left_actuator : p.left_actuator < 65536
  pub right_actuator : p.right_actuator < 65536
