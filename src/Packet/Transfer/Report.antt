-- ===== src/Packet/Transfer/Report.antt =====
-- Location and encoder reports.
use lame.Prelude.{ℕ, u8, ◌≤◌, ◌≡◌, ◌≢◌, refl, List, ◌∷◌, ◌++◌, length, none, some, arith, ok}
use lame.Prelude.Int.{pos, negsuc}
use lame.Packet.Payloads.{LocationPayload, EncoderPayload, FitsLocation}
use lame.Packet.Header.{HeaderRead}
use lame.Packet.Header.Accept.{read-unended}
use lame.Packet.Create.{
  clamp, location_bytes, encoder_bytes, create_report_location_packet, create_report_encoder_packet,
}
use lame.Packet.Create.Clamp.{clamp-lt}
use lame.Packet.Create.Packets.{create_report_location_packet_lem, create_report_encoder_packet_lem}
use lame.Packet.Parse.{parse_location_payload}
use lame.Packet.Parse.Fields.{parse_location_payload_lem}
use lame.Packet.Transfer.{receive, receive_lem}

module _ (old : List ℕ) (z v : ℕ) (r : List ℕ) (n o : ℕ) where
  -- In an array of twelve places or more, whose eleventh place holds a zero and whose tenth does not
  -- hold the end byte, such as a zeroed array: the location report that `CreateReportLocationPacket`
  -- writes is refused by `ReadPacketHeader`, whatever the location, if the stated capacity is twelve
  -- at least as a `uint8_t`.
  pub receive-create_report_location_packet :
      (p : LocationPayload)
      → length old ≡ 9
      → z ≢ 0x7f
      → 12 ≤ u8 n
      → (h : HeaderRead) × (receive (create_report_location_packet (old ++ z ∷ 0 ∷ v ∷ r) n p) o
          ≡ ok h)
        × (h.result ≡ 0)
        × (h.opcode ≡ some o)
        × (h.payload_ptr ≡ some none)
  unfolding location_bytes
  receive-create_report_location_packet p size unended room =
      let (b, read) =
        read-unended (location_bytes p) z (0 ∷ r) 10 (some o) (some none) unended (omega arith)
          (omega arith) refl in
      (
        _,
        receive_lem _ o (create_report_location_packet_lem old v r n z p size room) read,
        refl,
        refl,
        refl,
      )

  -- So is the encoder report, in an array of eighteen places or more whose seventeenth place holds a
  -- zero and whose sixteenth does not hold the end byte.
  pub receive-create_report_encoder_packet :
      (p : EncoderPayload)
      → length old ≡ 15
      → z ≢ 0x7f
      → 18 ≤ u8 n
      → (h : HeaderRead) × (receive (create_report_encoder_packet (old ++ z ∷ 0 ∷ v ∷ r) n p) o
          ≡ ok h)
        × (h.result ≡ 0)
        × (h.opcode ≡ some o)
        × (h.payload_ptr ≡ some none)
  unfolding encoder_bytes
  receive-create_report_encoder_packet p size unended room =
      let (b, read) =
        read-unended (encoder_bytes p) z (0 ∷ r) 16 (some o) (some none) unended (omega arith)
          (omega arith) refl in
      (
        _,
        receive_lem _ o (create_report_encoder_packet_lem old v r n z p size room) read,
        refl,
        refl,
        refl,
      )

-- The stored bytes of a location themselves are in the order that `ParseLocationPayload` reads:
-- it gives back the coordinates, and the heading clamped to ±180.
pub parse-location_bytes :
    (p local : LocationPayload) (r : List ℕ)
    → FitsLocation p
    → parse_location_payload (location_bytes p ++ r) (some 3) (some local)
      ≡ ok (some (record p { heading = clamp p.heading (pos 180) (negsuc 179) }))
unfolding location_bytes
parse-location_bytes p local r fits =
    parse_location_payload_lem 0xab 0x45 6 r
      (record p { heading = clamp p.heading (pos 180) (negsuc 179) }) local
      (record { x = fits.x; y = fits.y; heading = clamp-lt p.heading fits.heading })
