-- ===== src/Tests/Packets.antt =====
-- The theorems on Robot/include/Packet.h, at concrete packets.
use lame.Prelude.{
  ℕ, ◌≤◌, ◌≡◌, refl, List, [], ◌∷◌, ◌++◌, length, replicate, none, some, ok, ◌>>=◌, arith,
}
use lame.Packet.Opcodes.{drive_opcode}
use lame.Packet.Cobs.{encode_cobs, decode_cobs}
use lame.Packet.Cobs.Reference.{stuff}
use lame.Packet.Cobs.Encode.{encode_cobs_lem}
use lame.Packet.Cobs.Decode.{decode_cobs_lem}
use lame.Packet.Cobs.RoundTrip.{decode_cobs-encode_cobs}
use lame.Packet.Cobs.Overrun.{encode_cobs_total}
use lame.Packet.Header.{HeaderRead, pointee, read_packet_header}
use lame.Packet.Header.Safety.{Verdict, read_packet_header_total}
use lame.Packet.Create.{create_drive_packet, create_report_location_packet}
use lame.Packet.Create.Overrun.{Needs, create_drive_packet-Needs}
use lame.Packet.Parse.{parse_drive_payload}
use lame.Packet.Transfer.{receive}
use lame.Packet.Transfer.Drive.{parse-create_drive_packet}
use lame.Packet.Transfer.Report.{receive-create_report_location_packet}
use lame.Tests.Samples.{data_bytes, garbage, forward, no_motion, corner}

decode_cobs-encode_cobs_example :
    (st : ℕ) × ((encode_cobs 256 (data_bytes ++ 0 ∷ 9 ∷ 5 ∷ []) 5 >>= λ s. decode_cobs s.0 s.1)
      ≡ ok (data_bytes ++ st ∷ 0 ∷ 5 ∷ [], 5))
decode_cobs-encode_cobs_example = decode_cobs-encode_cobs data_bytes 9 (5 ∷ []) (omega arith)

encode_cobs_lem_example :
    encode_cobs 256 (data_bytes ++ 0 ∷ 9 ∷ 5 ∷ []) 5 ≡ ok (stuff data_bytes ++ 0 ∷ 5 ∷ [], 7)
encode_cobs_lem_example = encode_cobs_lem data_bytes 9 (5 ∷ []) (omega arith)

decode_cobs_lem_example :
    (st : ℕ) × (decode_cobs (stuff data_bytes ++ 0 ∷ 5 ∷ []) 7
      ≡ ok (data_bytes ++ st ∷ 0 ∷ 5 ∷ [], 5))
decode_cobs_lem_example = decode_cobs_lem data_bytes (0 ∷ 5 ∷ []) (omega arith)

encode_cobs_total_example : (b : List ℕ) × (encode_cobs 256 garbage 4 ≡ ok (b, 6)) × (length b ≡ 6)
encode_cobs_total_example = encode_cobs_total garbage 4 (omega arith) (omega arith)

read_packet_header_total_example :
    (h : HeaderRead) × (read_packet_header (some garbage) 5 (some 0) (some none) ≡ ok h)
    × ((length h.buffer ≡ 6) × (h.result ≤ 5) × Verdict (some 0) (some none) h)
read_packet_header_total_example =
    read_packet_header_total garbage 5 (some 0) (some none) (omega arith) (omega arith)

create_drive_packet-Needs_example :
    Needs 9 11 (replicate 10 0) (create_drive_packet (replicate 10 0) 10 forward)
create_drive_packet-Needs_example = create_drive_packet-Needs (replicate 10 0) forward

parse-create_drive_packet_example :
    (h : HeaderRead) × (receive
        (create_drive_packet (replicate 9 0 ++ 0 ∷ 0 ∷ replicate 53 0) 64 forward)
        0
      ≡ ok h)
    × (h.result ≡ 9)
    × (h.opcode ≡ some drive_opcode)
    × (parse_drive_payload h.buffer (pointee h.payload_ptr) (some no_motion) ≡ ok (some forward))
parse-create_drive_packet_example =
    parse-create_drive_packet (replicate 9 0) 0 (replicate 53 0) 64 0 forward no_motion refl
      (omega arith)

receive-create_report_location_packet_example :
    (h : HeaderRead) × (receive
        (create_report_location_packet (replicate 9 0 ++ 0 ∷ 0 ∷ 0 ∷ []) 12 corner)
        5
      ≡ ok h)
    × (h.result ≡ 0)
    × (h.opcode ≡ some 5)
    × (h.payload_ptr ≡ some none)
receive-create_report_location_packet_example =
    receive-create_report_location_packet (replicate 9 0) 0 0 [] 12 5 corner refl
      (λ e. absurd (omega (arith, e))) (omega arith)
