-- ===== src/Packet/Header.antt =====
-- Robot/include/Packet.h: `ReadPacketHeader`.
-- A pointer argument is an `Option`: `none` is NULL, and `some v` points at `v`. A payload pointer
-- is the index into the array that it points at.
pub mod Safety
pub mod Accept
use lame.Prelude.{
  ℕ, ◌-◌, List, [], Option, none, some, Outcome, ok, fault, ◌>>=◌, load, u8, ltb, ◌==◌,
  if◌then◌else◌,
}
use lame.Packet.Opcodes.{
  pkt_header_byte, pkt_end_byte, pkt_min_size, pkt_hdr_index, pkt_op_index, pkt_payload_start_index,
}
use lame.Packet.Cobs.{decode_cobs}

-- The array afterwards, what the function returns, and the two out-parameters.
pub record HeaderRead : Type 0 where
  pub buffer : List ℕ
  pub result : ℕ
  pub opcode : Option ℕ
  pub payload_ptr : Option (Option ℕ)

-- `*payload_ptr`, NULL if there is none.
abbrev pub pointee : Option (Option ℕ) → Option ℕ
pointee none = none
pointee (some ptr) = ptr

-- `return 0`: neither out-parameter is written.
abbrev pub rejected : List ℕ → Option ℕ → Option (Option ℕ) → HeaderRead
rejected buffer opcode payload_ptr = record {
  buffer = buffer;
  result = 0;
  opcode = opcode;
  payload_ptr = payload_ptr;
}

-- `buffer[length - 1]`, an `int` index: at 0 it lies before the array.
pub load_last : List ℕ → ℕ → Outcome ℕ
load_last buffer length = if length == 0 then fault else load buffer (length - 1)

-- `if (opcode) *opcode = buffer[PKT_OP_INDEX];`
pub write_opcode : List ℕ → Option ℕ → Outcome (Option ℕ)
write_opcode buffer none = ok none
write_opcode buffer (some old) = load buffer pkt_op_index >>= λ op. ok (some op)

-- `if (payload_ptr) *payload_ptr = (length == PKT_MIN_SIZE) ? NULL : buffer + …;`
unfoldable pub write_payload_ptr : ℕ → Option (Option ℕ) → Option (Option ℕ)
write_payload_ptr length none = none
write_payload_ptr length (some old) =
    some (if length == pkt_min_size then none else some pkt_payload_start_index)

pub accept : List ℕ → ℕ → Option ℕ → Option (Option ℕ) → Outcome HeaderRead
accept buffer length opcode payload_ptr = do
  op ← write_opcode buffer opcode
  ok (record {
    buffer = buffer;
    result = length;
    opcode = op;
    payload_ptr = write_payload_ptr length payload_ptr;
  })

-- The tests on the decoded packet of `length` bytes.
pub check_packet : List ℕ → ℕ → Option ℕ → Option (Option ℕ) → Outcome HeaderRead
check_packet buffer length opcode payload_ptr = do
  first ← load buffer pkt_hdr_index
  if first == pkt_header_byte
      then (load_last buffer length >>= λ last.
          if last == pkt_end_byte
          then accept buffer length opcode payload_ptr
          else ok (rejected buffer opcode payload_ptr))
      else ok (rejected buffer opcode payload_ptr)

pub read_packet_header : Option (List ℕ) → ℕ → Option ℕ → Option (Option ℕ) → Outcome HeaderRead
read_packet_header none length opcode payload_ptr = ok (rejected [] opcode payload_ptr)
read_packet_header (some buffer) length opcode payload_ptr =
    if ltb length pkt_min_size
    then ok (rejected buffer opcode payload_ptr)
    else (decode_cobs buffer length >>= λ s. check_packet s.0 (u8 s.1) opcode payload_ptr)
