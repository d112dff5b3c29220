-- ===== src/Packet/Create/Packets.antt =====
-- The bytes that each serialize function of Robot/include/Packet.h writes, over an array with a
-- zero and one more place behind the packet.
use lame.Prelude.{ℕ, ◌≤◌, ◌≡◌, refl, List, [], ◌∷◌, ◌++◌, length, arith, ok, u8, le→not_ltb}
use lame.Packet.Opcodes.{drive_opcode, set_camera_quality_opcode, set_camera_location_opcode}
use lame.Packet.Payloads.{
  DrivePayload, LocationPayload, EncoderPayload, CameraQualityPayload, CameraLocationPayload,
}
use lame.Packet.Cobs.Reference.{stuff}
use lame.Packet.Header.Accept.{framed}
use lame.Packet.Create.{
  create_no_payload_packet, create_drive_packet, create_set_quality_camera_packet,
  create_set_camera_location_packet, create_report_location_packet, create_report_encoder_packet,
  location_bytes, encoder_bytes,
}
use lame.Packet.Create.Write.{write_packet_lem, write_packet-short}

abbrev pub drive_body : DrivePayload → List ℕ
drive_body p = 5 ∷ p.left ∷ p.right ∷ p.actuator ∷ p.scooper ∷ p.vibrator ∷ []

module _ (old : List ℕ) (v : ℕ) (r : List ℕ) (n : ℕ) where
  pub create_no_payload_packet_lem :
      (op : ℕ)
      → length old ≡ 4
      → 6 ≤ u8 n
      → create_no_payload_packet (old ++ 0 ∷ v ∷ r) n op
        ≡ ok (stuff (framed op (0 ∷ [])) ++ 0 ∷ r, 6)
  unfolding create_no_payload_packet
  create_no_payload_packet_lem op size room =
      rw (le→not_ltb (u8 n) 6 room) (write_packet_lem _ old v r 4 size refl (omega arith))

  pub create_drive_packet_lem :
      (p : DrivePayload)
      → length old ≡ 9
      → 9 ≤ u8 n
      → create_drive_packet (old ++ 0 ∷ v ∷ r) n p
        ≡ ok (stuff (framed drive_opcode (drive_body p)) ++ 0 ∷ r, 11)
  unfolding create_drive_packet
  create_drive_packet_lem p size room =
      rw (le→not_ltb (u8 n) 9 room) (write_packet_lem _ old v r 9 size refl (omega arith))

  pub create_set_quality_camera_packet_lem :
      (p : CameraQualityPayload)
      → length old ≡ 5
      → 5 ≤ u8 n
      → create_set_quality_camera_packet (old ++ 0 ∷ v ∷ r) n p
        ≡ ok (stuff (framed set_camera_quality_opcode (1 ∷ p.quality ∷ [])) ++ 0 ∷ r, 7)
  unfolding create_set_quality_camera_packet
  create_set_quality_camera_packet_lem p size room =
      rw (le→not_ltb (u8 n) 5 room) (write_packet_lem _ old v r 5 size refl (omega arith))

  pub create_set_camera_location_packet_lem :
      (p : CameraLocationPayload)
      → length old ≡ 6
      → 6 ≤ u8 n
      → create_set_camera_location_packet (old ++ 0 ∷ v ∷ r) n p
        ≡ ok (stuff (framed set_camera_location_opcode (2 ∷ p.id ∷ p.angle ∷ [])) ++ 0 ∷ r, 8)
  unfolding create_set_camera_location_packet
  create_set_camera_location_packet_lem p size room =
      rw (le→not_ltb (u8 n) 6 room) (write_packet_lem _ old v r 6 size refl (omega arith))

  -- `z` is what the array held where the end byte belongs.
  pub create_report_location_packet_lem :
      (z : ℕ) (p : LocationPayload)
      → length old ≡ 9
      → 12 ≤ u8 n
      → create_report_location_packet (old ++ z ∷ 0 ∷ v ∷ r) n p
        ≡ ok (stuff (location_bytes p ++ z ∷ []) ++ 0 ∷ r, 12)
  unfolding create_report_location_packet location_bytes
  create_report_location_packet_lem z p size room =
      rw (le→not_ltb (u8 n) 12 room) (write_packet-short _ old z v r 10 size refl (omega arith))

  pub create_report_encoder_packet_lem :
      (z : ℕ) (p : EncoderPayload)
      → length old ≡ 15
      → 18 ≤ u8 n
      → create_report_encoder_packet (old ++ z ∷ 0 ∷ v ∷ r) n p
        ≡ ok (stuff (encoder_bytes p ++ z ∷ []) ++ 0 ∷ r, 18)
  unfolding create_report_encoder_packet
  create_report_encoder_packet_lem z p size room =
      rw (le→not_ltb (u8 n) 18 room) (write_packet-short _ old z v r 16 size refl (omega arith))
