-- ===== src/PacketHandler/Wire.antt =====
-- The packets without payload of BaseStation/BaseStationPacket/PacketHandler.cpp, made and read.
use mathlib.Core.List.{append_assoc}
use lame.Prelude.{
  ℕ, ◌%◌, ◌<◌, ◌≡◌, refl, sym, List, [], ◌∷◌, length, take-append, replicate, none, arith, ok,
  Outcome,
}
use lame.Prelude.Int.{pos}
use lame.Packet.Opcodes.{
  query_heartbeat_opcode, remote_switch_opcode, ai_init_opcode, query_camera_image_opcode,
  query_camera1_image_opcode,
}
use lame.Packet.Cobs.Reference.{stuff}
use lame.Packet.Header.Accept.{framed, length-sent_bytes, read-framed}
use lame.Packet.Create.{
  create_no_payload_packet, create_query_heartbeat_packet, create_remote_switch_packet,
  create_ai_init_packet, create_query_camera_image_packet, create_query_camera1_image_packet,
}
use lame.Packet.Create.Packets.{create_no_payload_packet_lem}
use lame.Packet.Create.Fixed.{wire}
use lame.PacketHandler.{
  managed, get_no_payload_packet, get_query_heartbeat_packet, get_remote_switch_packet,
  get_ai_init_packet, get_query_camera_image_packet, get_query_camera1_image_packet, pinned,
  get_packet_opcode,
}

get_no_payload_packet_lem :
    (func : List ℕ → ℕ → Outcome (List ℕ × ℕ)) (op : ℕ)
    → func (replicate 128 0) 128 ≡ create_no_payload_packet (replicate 128 0) 128 op
    → get_no_payload_packet func ≡ ok (wire op)
unfolding get_no_payload_packet managed
get_no_payload_packet_lem func op e = rw (
  e,
  create_no_payload_packet_lem (replicate 4 0) 0 (replicate 122 0) 128 op refl (omega arith),
  sym (append_assoc (stuff (framed op (0 ∷ []))) (0 ∷ []) (replicate 122 0)),
  take-append (wire op) (replicate 122 0) 6 (omega (arith, length-sent_bytes op (0 ∷ []))),
)

pub get_query_heartbeat_packet_lem : get_query_heartbeat_packet ≡ ok (wire query_heartbeat_opcode)
unfolding get_query_heartbeat_packet create_query_heartbeat_packet
get_query_heartbeat_packet_lem =
    get_no_payload_packet_lem create_query_heartbeat_packet query_heartbeat_opcode refl

pub get_remote_switch_packet_lem : get_remote_switch_packet ≡ ok (wire remote_switch_opcode)
unfolding get_remote_switch_packet create_remote_switch_packet
get_remote_switch_packet_lem =
    get_no_payload_packet_lem create_remote_switch_packet remote_switch_opcode refl

pub get_ai_init_packet_lem : get_ai_init_packet ≡ ok (wire ai_init_opcode)
unfolding get_ai_init_packet create_ai_init_packet
get_ai_init_packet_lem = get_no_payload_packet_lem create_ai_init_packet ai_init_opcode refl

pub get_query_camera_image_packet_lem :
    get_query_camera_image_packet ≡ ok (wire query_camera_image_opcode)
unfolding get_query_camera_image_packet create_query_camera_image_packet
get_query_camera_image_packet_lem =
    get_no_payload_packet_lem create_query_camera_image_packet query_camera_image_opcode refl

pub get_query_camera1_image_packet_lem :
    get_query_camera1_image_packet ≡ ok (wire query_camera1_image_opcode)
unfolding get_query_camera1_image_packet create_query_camera1_image_packet
get_query_camera1_image_packet_lem =
    get_no_payload_packet_lem create_query_camera1_image_packet query_camera1_image_opcode refl

pinned_lem : (b : List ℕ) → 0 < length b → pinned b ≡ ok b
unfolding pinned
pinned_lem [] h = absurd (omega arith)
pinned_lem (x ∷ b) h = refl

-- Its own reader finds the opcode of such a packet.
pub get_packet_opcode-wire : (op : ℕ) → get_packet_opcode (wire op) (pos (length (wire op))) ≡ ok op
unfolding get_packet_opcode
get_packet_opcode-wire op =
    let size = length-sent_bytes op (0 ∷ []) in
    let (st, read) = read-framed op (0 ∷ []) (0 ∷ []) 4 0 none (omega arith) refl in
    let count : length (wire op) % 256 ≡ 6 = omega arith in
    rw (pinned_lem (wire op) (omega arith), count, read)
