-- ===== src/Packet/Parse/Fields.antt =====
-- The deserialize functions of Robot/include/Packet.h on the bytes of a payload.
use lame.Prelude.{
  ℕ, ◌*◌, ◌/◌, ◌<◌, ◌≡◌, refl, List, ◌∷◌, none, some, arith, ok, load, u8, u16, bit_or,
  bit_or_bytes,
}
use lame.Packet.Payloads.{
  DrivePayload, LocationPayload, EncoderPayload, CameraQualityPayload, CameraLocationPayload,
  FitsLocation, FitsEncoder,
}
use lame.Packet.Parse.{
  load_half, parse_location_payload, parse_encoder_payload, parse_drive_payload,
  parse_quality_payload, parse_camera_location_payload,
}

-- A 16-bit field, high byte first.
pub half_of_bytes : (v : ℕ) → v < 65536 → u16 (bit_or (u8 (v / 256) * 256) (u8 v)) ≡ v
half_of_bytes v h =
    rw (bit_or_bytes (u8 (v / 256)) (u8 v) (omega arith) (omega arith)) (omega arith)

module _ (a b c : ℕ) (r : List ℕ) where
  pub parse_drive_payload_lem :
      (p old : DrivePayload)
      → parse_drive_payload
          (a ∷ b ∷ c ∷ p.left ∷ p.right ∷ p.actuator ∷ p.scooper ∷ p.vibrator ∷ r)
          (some 3)
          (some old)
        ≡ ok (some p)
  unfolding parse_drive_payload load
  parse_drive_payload_lem p old = refl

  -- A NULL payload pointer leaves the struct as it was.
  pub parse_drive_payload_null :
      (old : DrivePayload) → parse_drive_payload (a ∷ b ∷ c ∷ r) none (some old) ≡ ok (some old)
  unfolding parse_drive_payload
  parse_drive_payload_null old = refl

  pub parse_quality_payload_lem :
      (p old : CameraQualityPayload)
      → parse_quality_payload (a ∷ b ∷ c ∷ p.quality ∷ r) (some 3) (some old) ≡ ok (some p)
  unfolding parse_quality_payload load
  parse_quality_payload_lem p old = refl

  pub parse_camera_location_payload_lem :
      (p old : CameraLocationPayload)
      → parse_camera_location_payload (a ∷ b ∷ c ∷ p.id ∷ p.angle ∷ r) (some 3) (some old)
        ≡ ok (some p)
  unfolding parse_camera_location_payload load
  parse_camera_location_payload_lem p old = refl

  -- The stored heading is read back as it was stored; so are the coordinates.
  pub parse_location_payload_lem :
      (p old : LocationPayload)
      → FitsLocation p
      → parse_location_payload
          (a
            ∷ b
            ∷ c
            ∷ u8 (p.x / 256)
            ∷ u8 p.x
            ∷ u8 (p.y / 256)
            ∷ u8 p.y
            ∷ u8 (p.heading / 256)
            ∷ u8 p.heading
            ∷ r)
          (some 3)
          (some old)
        ≡ ok (some p)
  unfolding parse_location_payload load_half load
  parse_location_payload_lem p old fits =
      rw (half_of_bytes p.x fits.x, half_of_bytes p.y fits.y, half_of_bytes p.heading fits.heading)

  -- Six 16-bit fields, each stored with its high byte first behind three other bytes, are parsed
  -- back, whatever bytes stand around them.
  pub parse_encoder_payload_lem :
      (p old : EncoderPayload)
      → FitsEncoder p
      → parse_encoder_payload
          (a
            ∷ b
            ∷ c
            ∷ u8 (p.front_left / 256)
            ∷ u8 p.front_left
            ∷ u8 (p.front_right / 256)
            ∷ u8 p.front_right
            ∷ u8 (p.back_left / 256)
            ∷ u8 p.back_left
            ∷ u8 (p.back_right / 256)
            ∷ u8 p.back_right
            ∷ u8 (p.left_actuator / 256)
            ∷ u8 p.left_actuator
            ∷ u8 (p.right_actuator / 256)
            ∷ u8 p.right_actuator
            ∷ r)
          (some 3)
          (some old)
        ≡ ok (some p)
  unfolding parse_encoder_payload load_half load
  parse_encoder_payload_lem p old fits = rw (
    half_of_bytes p.front_left fits.front_left,
    half_of_bytes p.front_right fits.front_right,
    half_of_bytes p.back_left fits.back_left,
    half_of_bytes p.back_right fits.back_right,
    half_of_bytes p.left_actuator fits.left_actuator,
    half_of_bytes p.right_actuator fits.right_actuator,
  )
