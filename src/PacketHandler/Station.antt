-- ===== src/PacketHandler/Station.antt =====
-- Packets that BaseStation/BaseStationPacket/PacketHandler.cpp makes, at the robot of
-- Robot/src/BLER.cpp.
use mathlib.Core.List.{append_assoc}
use lame.Prelude.{ℕ, ◌≡◌, refl, sym, List, [], ◌∷◌, Option, take-append, replicate, arith, ok}
use lame.Prelude.Int.{pos, negsuc, ◌≤ℤ◌, signed8, signed8-to_byte, to_byte}
use lame.Packet.Opcodes.{drive_opcode, set_camera_quality_opcode, set_camera_location_opcode}
use lame.Packet.Cobs.Reference.{stuff}
use lame.Packet.Header.Accept.{framed, sent_bytes, length-sent_bytes}
use lame.Packet.Create.Packets.{
  create_drive_packet_lem, create_set_quality_camera_packet_lem,
  create_set_camera_location_packet_lem, drive_body,
}
use lame.Bler.State.{Sockets, SockAddr, Bler}
use lame.Bler.Udp.{Surroundings, datagram, Round, udp_round}
use lame.Bler.Udp.Deliver.{udp_round-drive}
use lame.PacketHandler.{
  Drive, CameraQuality, CameraLocation, clamp, managed, drive_payload, get_drive_packet,
  get_set_camera_quality_packet, get_set_camera_location_packet,
}

-- The fields that the operator sets fit an `int8_t`.
pub record FitsByte (d : Drive) : Type 0 where
  pub left_low : negsuc 127 ≤ℤ d.left
  pub left_high : d.left ≤ℤ pos 127
  pub right_low : negsuc 127 ≤ℤ d.right
  pub right_high : d.right ≤ℤ pos 127

pub get_drive_packet_lem :
    (d : Drive) → get_drive_packet d ≡ ok (sent_bytes drive_opcode (drive_body (drive_payload d)))
unfolding get_drive_packet managed
get_drive_packet_lem d =
    let body = drive_body (drive_payload d) in
    rw (
      create_drive_packet_lem (replicate 9 0) 0 (replicate 117 0) 128 (drive_payload d) refl
          (omega arith),
      sym (append_assoc (stuff (framed drive_opcode body)) (0 ∷ []) (replicate 117 0)),
      take-append (sent_bytes drive_opcode body) (replicate 117 0) 11
          (omega (arith, length-sent_bytes drive_opcode body)),
    )

pub get_set_camera_quality_packet_lem :
    (cq : CameraQuality)
    → get_set_camera_quality_packet cq
      ≡ ok (
          sent_bytes set_camera_quality_opcode
            (1 ∷ to_byte (clamp cq.quality (pos 100) (pos 0)) ∷ []))
unfolding get_set_camera_quality_packet managed
get_set_camera_quality_packet_lem cq =
    let body = 1 ∷ to_byte (clamp cq.quality (pos 100) (pos 0)) ∷ [] in
    rw (
      create_set_quality_camera_packet_lem (replicate 5 0) 0 (replicate 121 0) 128 _ refl
          (omega arith),
      sym (append_assoc (stuff (framed set_camera_quality_opcode body)) (0 ∷ []) (replicate 121 0)),
      take-append (sent_bytes set_camera_quality_opcode body) (replicate 121 0) 7
          (omega (arith, length-sent_bytes set_camera_quality_opcode body)),
    )

pub get_set_camera_location_packet_lem :
    (cl : CameraLocation)
    → get_set_camera_location_packet cl
      ≡ ok (sent_bytes set_camera_location_opcode (2 ∷ to_byte cl.id ∷ to_byte cl.angle ∷ []))
unfolding get_set_camera_location_packet managed
get_set_camera_location_packet_lem cl =
    let body = 2 ∷ to_byte cl.id ∷ to_byte cl.angle ∷ [] in
    rw (
      create_set_camera_location_packet_lem (replicate 6 0) 0 (replicate 120 0) 128 _ refl
          (omega arith),
      sym (
          append_assoc (stuff (framed set_camera_location_opcode body)) (0 ∷ []) (replicate 120 0)),
      take-append (sent_bytes set_camera_location_opcode body) (replicate 120 0) 8
          (omega (arith, length-sent_bytes set_camera_location_opcode body)),
    )

-- What the base station's operator sets is what the robot has after the packet has arrived: the
-- wheels' speeds, where they fit an `int8_t`, with their signs.
pub udp_round-get_drive_packet :
    {Frame : Type 0} (imencode : Frame → ℕ → Option (List ℕ)) (sys : Sockets) (r : Bler Frame)
    (read_buffer : List ℕ) (addr : SockAddr) (env : Surroundings) (d : Drive)
    → FitsByte d
    → (packet : List ℕ) × (after : Round Frame) × (get_drive_packet d ≡ ok packet)
      × (udp_round imencode sys r read_buffer env (datagram packet addr) ≡ ok after)
      × (signed8 after.robot.latest_drive_payload.left ≡ d.left)
      × (signed8 after.robot.latest_drive_payload.right ≡ d.right)
      × (after.robot.last_drive_payload_received_time ≡ env.now)
unfolding drive_payload
udp_round-get_drive_packet imencode sys r read_buffer addr env d fits =
    let (after, received, robot, sent) =
      udp_round-drive imencode sys r read_buffer addr env (drive_payload d) in
    (
      sent_bytes drive_opcode (drive_body (drive_payload d)),
      after,
      get_drive_packet_lem d,
      received,
      rw robot (signed8-to_byte d.left fits.left_low fits.left_high),
      rw robot (signed8-to_byte d.right fits.right_low fits.right_high),
      rw robot,
    )
