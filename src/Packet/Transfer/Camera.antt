-- ===== src/Packet/Transfer/Camera.antt =====
-- The camera's two packets.
use lame.Prelude.{ℕ, u8, ◌≤◌, ◌≡◌, refl, List, [], ◌∷◌, ◌++◌, length, none, some, arith, ok}
use lame.Packet.Opcodes.{set_camera_quality_opcode, set_camera_location_opcode}
use lame.Packet.Payloads.{CameraQualityPayload, CameraLocationPayload}
use lame.Packet.Header.{HeaderRead, write_payload_ptr, pointee}
use lame.Packet.Header.Accept.{read-framed}
use lame.Packet.Create.{create_set_quality_camera_packet, create_set_camera_location_packet}
use lame.Packet.Create.Packets.{
  create_set_quality_camera_packet_lem, create_set_camera_location_packet_lem,
}
use lame.Packet.Parse.{parse_quality_payload, parse_camera_location_payload}
use lame.Packet.Parse.Fields.{parse_quality_payload_lem, parse_camera_location_payload_lem}
use lame.Packet.Transfer.{receive, receive_lem}

module _ (old : List ℕ) (v : ℕ) (r : List ℕ) (n o : ℕ) where
  -- A quality packet, created over an array whose sixth place holds a zero and that has a seventh,
  -- is read as such, and its payload parsed back.
  pub parse-create_set_quality_camera_packet :
      (p local : CameraQualityPayload)
      → length old ≡ 5
      → 5 ≤ u8 n
      → (h : HeaderRead) × (receive (create_set_quality_camera_packet (old ++ 0 ∷ v ∷ r) n p) o
          ≡ ok h)
        × (h.result ≡ 5)
        × (h.opcode ≡ some set_camera_quality_opcode)
        × (parse_quality_payload h.buffer (pointee h.payload_ptr) (some local) ≡ ok (some p))
  unfolding write_payload_ptr
  parse-create_set_quality_camera_packet p local size room =
      let (st, read) =
        read-framed set_camera_quality_opcode (1 ∷ p.quality ∷ []) (0 ∷ r) 5 o (some none)
          (omega arith) refl in
      (
        _,
        receive_lem _ o (create_set_quality_camera_packet_lem old v r n p size room) read,
        refl,
        refl,
        parse_quality_payload_lem 0xab set_camera_quality_opcode 1 (0x7f ∷ st ∷ 0 ∷ r) p local,
      )

  -- A camera location packet, created over an array whose seventh place holds a zero and that has
  -- an eighth, is read as such, and its payload parsed back.
  pub parse-create_set_camera_location_packet :
      (p local : CameraLocationPayload)
      → length old ≡ 6
      → 6 ≤ u8 n
      → (h : HeaderRead) × (receive (create_set_camera_location_packet (old ++ 0 ∷ v ∷ r) n p) o
          ≡ ok h)
        × (h.result ≡ 6)
        × (h.opcode ≡ some set_camera_location_opcode)
        × (parse_camera_location_payload h.buffer (pointee h.payload_ptr) (some local)
            ≡ ok (some p))
  unfolding write_payload_ptr
  parse-create_set_camera_location_packet p local size room =
      let (st, read) =
        read-framed set_camera_location_opcode (2 ∷ p.id ∷ p.angle ∷ []) (0 ∷ r) 6 o (some none)
          (omega arith) refl in
      (
        _,
        receive_lem _ o (create_set_camera_location_packet_lem old v r n p size room) read,
        refl,
        refl,
        parse_camera_location_payload_lem 0xab set_camera_location_opcode 2 (0x7f ∷ st ∷ 0 ∷ r) p
            local,
      )
