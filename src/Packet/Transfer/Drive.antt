-- ===== src/Packet/Transfer/Drive.antt =====
-- Packets without a payload, and drive packets.
use lame.Prelude.{ℕ, u8, ◌≤◌, ◌≡◌, refl, List, [], ◌∷◌, ◌++◌, length, none, some, arith, ok}
use lame.Packet.Opcodes.{drive_opcode}
use lame.Packet.Payloads.{DrivePayload}
use lame.Packet.Header.{HeaderRead, write_payload_ptr, pointee}
use lame.Packet.Header.Accept.{read-framed}
use lame.Packet.Create.{create_no_payload_packet, create_drive_packet}
use lame.Packet.Create.Packets.{create_no_payload_packet_lem, create_drive_packet_lem, drive_body}
use lame.Packet.Parse.{parse_drive_payload}
use lame.Packet.Parse.Fields.{parse_drive_payload_lem}
use lame.Packet.Transfer.{receive, receive_lem}

module _ (old : List ℕ) (v : ℕ) (r : List ℕ) (n o : ℕ) where
  -- What is created without a payload, over an array whose fifth place holds a zero and that has a
  -- sixth, with a capacity of six at least, is read with its opcode and length 4, and no payload pointer.
  pub receive-create_no_payload_packet :
      (op : ℕ)
      → length old ≡ 4
      → 6 ≤ u8 n
      → (h : HeaderRead) × (receive (create_no_payload_packet (old ++ 0 ∷ v ∷ r) n op) o ≡ ok h)
        × (h.result ≡ 4)
        × (h.opcode ≡ some op)
        × (h.payload_ptr ≡ some none)
  unfolding write_payload_ptr
  receive-create_no_payload_packet op size room =
      let (st, read) = read-framed op (0 ∷ []) (0 ∷ r) 4 o (some none) (omega arith) refl in
      (
        _,
        receive_lem _ o (create_no_payload_packet_lem old v r n op size room) read,
        refl,
        refl,
        refl,
      )

  -- What is created from a drive payload, over an array whose tenth place holds a zero and that has
  -- an eleventh, with a stated capacity that is nine at least as a `uint8_t`, is read as a drive
  -- packet of nine bytes, and parsing its payload gives the payload back, every field of it.
  pub parse-create_drive_packet :
      (p local : DrivePayload)
      → length old ≡ 9
      → 9 ≤ u8 n
      → (h : HeaderRead) × (receive (create_drive_packet (old ++ 0 ∷ v ∷ r) n p) o ≡ ok h)
        × (h.result ≡ 9)
        × (h.opcode ≡ some drive_opcode)
        × (parse_drive_payload h.buffer (pointee h.payload_ptr) (some local) ≡ ok (some p))
  unfolding write_payload_ptr
  parse-create_drive_packet p local size room =
      let (st, read) =
        read-framed drive_opcode (drive_body p) (0 ∷ r) 9 o (some none) (omega arith) refl in
      (
        _,
        receive_lem _ o (create_drive_packet_lem old v r n p size room) read,
        refl,
        refl,
        parse_drive_payload_lem 0xab drive_opcode 5 (0x7f ∷ st ∷ 0 ∷ r) p local,
      )
