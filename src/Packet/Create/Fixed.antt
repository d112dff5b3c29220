-- ===== src/Packet/Create/Fixed.antt =====
-- The packets without payload that Robot/src/BLER.cpp makes in its zeroed arrays of 16 bytes.
use mathlib.Core.List.{append_assoc}
use lame.Prelude.{
  ℕ, ◌≡◌, refl, sym, ap, ◌∙◌, List, [], ◌∷◌, ◌++◌, length-append, take, take-append, replicate,
  arith, ok,
}
use lame.Packet.Opcodes.{
  remote_switch_opcode, switch_mode_ack_opcode, ai_init_opcode, query_heartbeat_opcode,
  report_heartbeat_opcode,
}
use lame.Packet.Cobs.Reference.{stuff, length-stuff}
use lame.Packet.Header.Accept.{framed}
use lame.Packet.Create.{
  create_report_heartbeat_packet, create_switch_mode_ack_packet, create_ai_init_packet,
  create_query_heartbeat_packet, create_remote_switch_packet,
}
use lame.Packet.Create.Packets.{create_no_payload_packet_lem}

-- The bytes on the wire of a packet without payload, and the array that holds them.
abbrev pub wire : ℕ → List ℕ
wire op = stuff (framed op (0 ∷ [])) ++ 0 ∷ []

abbrev pub wire_array : ℕ → List ℕ
wire_array op = stuff (framed op (0 ∷ [])) ++ 0 ∷ replicate 10 0

pub take-wire_array : (op : ℕ) → take 6 (wire_array op) ≡ wire op
take-wire_array op =
    let size = length-stuff (framed op (0 ∷ [])) in
    ap (take 6) (sym (append_assoc (stuff (framed op (0 ∷ []))) (0 ∷ []) (replicate 10 0)))
    ∙ take-append (wire op) (replicate 10 0) 6
        (omega (arith, size, length-append (stuff (framed op (0 ∷ []))) (0 ∷ [])))

pub create_report_heartbeat_packet_lem :
    create_report_heartbeat_packet (replicate 16 0) 16 ≡ ok (wire_array report_heartbeat_opcode, 6)
unfolding create_report_heartbeat_packet
create_report_heartbeat_packet_lem =
    create_no_payload_packet_lem (replicate 4 0) 0 (replicate 10 0) 16 _ refl (omega arith)

pub create_switch_mode_ack_packet_lem :
    create_switch_mode_ack_packet (replicate 16 0) 16 ≡ ok (wire_array switch_mode_ack_opcode, 6)
unfolding create_switch_mode_ack_packet
create_switch_mode_ack_packet_lem =
    create_no_payload_packet_lem (replicate 4 0) 0 (replicate 10 0) 16 _ refl (omega arith)

pub create_ai_init_packet_lem :
    create_ai_init_packet (replicate 16 0) 16 ≡ ok (wire_array ai_init_opcode, 6)
unfolding create_ai_init_packet
create_ai_init_packet_lem =
    create_no_payload_packet_lem (replicate 4 0) 0 (replicate 10 0) 16 _ refl (omega arith)

pub create_query_heartbeat_packet_lem :
    create_query_heartbeat_packet (replicate 16 0) 16 ≡ ok (wire_array query_heartbeat_opcode, 6)
unfolding create_query_heartbeat_packet
create_query_heartbeat_packet_lem =
    create_no_payload_packet_lem (replicate 4 0) 0 (replicate 10 0) 16 _ refl (omega arith)

pub create_remote_switch_packet_lem :
    create_remote_switch_packet (replicate 16 0) 16 ≡ ok (wire_array remote_switch_opcode, 6)
unfolding create_remote_switch_packet
create_remote_switch_packet_lem =
    create_no_payload_packet_lem (replicate 4 0) 0 (replicate 10 0) 16 _ refl (omega arith)
