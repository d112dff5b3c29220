-- ===== src/Packet/Create/Overrun.antt =====
-- Which capacities the serialize functions of Robot/include/Packet.h check, and which they need.
use lame.Prelude.{
  ℕ, ◌%◌, ◌≤◌, ◌<◌, ◌≡◌, List, length, arith, Outcome, ok, fault, le→not_ltb, lt→ltb,
}
use native.Mathlib.Decide.{dec_lt}
use lame.Packet.Payloads.{
  DrivePayload, LocationPayload, EncoderPayload, CameraQualityPayload, CameraLocationPayload,
}
use lame.Packet.Create.{
  create_no_payload_packet, create_drive_packet, create_set_quality_camera_packet,
  create_set_camera_location_packet, create_report_location_packet, create_report_encoder_packet,
}
use lame.Packet.Create.Write.{write_packet_total, write_packet_fault}

-- What a call that states the size of its array as the capacity may come to. The capacity that is
-- tested is the size modulo 256. Where it is below `low` the call returns 0 and leaves the array
-- alone; otherwise it leaves the array if that has fewer than `high` places, and if not, returns
-- `high` and keeps the array's size.
pub data Needs (low high : ℕ) (b : List ℕ) (result : Outcome (List ℕ × ℕ)) : Type 0 where
  refuses : length b % 256 < low → result ≡ ok (b, 0) → Needs low high b result
  overruns : low ≤ length b % 256 → length b < high → result ≡ fault → Needs low high b result
  writes :
      (b' : List ℕ)
      → low ≤ length b % 256
      → high ≤ length b
      → result ≡ ok (b', high)
      → length b' ≡ length b
      → Needs low high b result

by_size :
    (low high : ℕ) (b : List ℕ) {result : Outcome (List ℕ × ℕ)}
    → (length b % 256 < low → result ≡ ok (b, 0))
    → (low ≤ length b % 256 → length b < high → result ≡ fault)
    → (low ≤ length b % 256
        → high ≤ length b
        → (b' : List ℕ) × (result ≡ ok (b', high)) × (length b' ≡ length b))
    → Needs low high b result
by_size low high b small middle large = elim (dec_lt (length b % 256) low) [
  | yes h ↦ refuses h (small h)
  | no l ↦ elim (dec_lt (length b) high) [
    | yes h ↦ overruns (omega arith) h (middle (omega arith) h)
    | no m ↦
        let (b', e, size) = large (omega arith) (omega arith) in
        writes b' (omega arith) (omega arith) e size
  ]
]

module _ (b : List ℕ) where
  -- A packet without payload is created in any array whose size modulo 256 is six at least, and
  -- refused in any other.
  pub create_no_payload_packet-Needs :
      (op : ℕ) → Needs 6 6 b (create_no_payload_packet b (length b) op)
  unfolding create_no_payload_packet
  create_no_payload_packet-Needs op =
      by_size 6 6 b (λ h. rw (lt→ltb (length b % 256) 6 h)) (λ l h. absurd (omega arith))
        (λ l h.
          rw (le→not_ltb (length b % 256) 6 l)
            (write_packet_total b _ 4 (omega arith) (omega arith) (omega arith)))

  -- `CreateDrivePacket`, called with an array's size as its capacity, tests that size modulo 256. An
  -- array for which this is below 9 is refused, so also one of 256 to 264 places. Of the others,
  -- one of 9 or 10 places is left while writing, and a larger one is written, 11 bytes.
  pub create_drive_packet-Needs :
      (p : DrivePayload) → Needs 9 11 b (create_drive_packet b (length b) p)
  unfolding create_drive_packet
  create_drive_packet-Needs p =
      by_size 9 11 b (λ h. rw (lt→ltb (length b % 256) 9 h))
        (λ l h.
          rw (le→not_ltb (length b % 256) 9 l)
            (write_packet_fault b _ 9 (omega arith) (omega arith) (omega arith) (omega arith)))
        (λ l h.
          rw (le→not_ltb (length b % 256) 9 l)
            (write_packet_total b _ 9 (omega arith) (omega arith) (omega arith)))

  -- `CreateSetQualityCameraPacket` also accepts an array of 5 or 6 places, and writes 7 bytes.
  pub create_set_quality_camera_packet-Needs :
      (p : CameraQualityPayload) → Needs 5 7 b (create_set_quality_camera_packet b (length b) p)
  unfolding create_set_quality_camera_packet
  create_set_quality_camera_packet-Needs p =
      by_size 5 7 b (λ h. rw (lt→ltb (length b % 256) 5 h))
        (λ l h.
          rw (le→not_ltb (length b % 256) 5 l)
            (write_packet_fault b _ 5 (omega arith) (omega arith) (omega arith) (omega arith)))
        (λ l h.
          rw (le→not_ltb (length b % 256) 5 l)
            (write_packet_total b _ 5 (omega arith) (omega arith) (omega arith)))

  -- `CreateSetCameraLocationPacket` also accepts an array of 6 or 7 places, and writes 8 bytes.
  pub create_set_camera_location_packet-Needs :
      (p : CameraLocationPayload) → Needs 6 8 b (create_set_camera_location_packet b (length b) p)
  unfolding create_set_camera_location_packet
  create_set_camera_location_packet-Needs p =
      by_size 6 8 b (λ h. rw (lt→ltb (length b % 256) 6 h))
        (λ l h.
          rw (le→not_ltb (length b % 256) 6 l)
            (write_packet_fault b _ 6 (omega arith) (omega arith) (omega arith) (omega arith)))
        (λ l h.
          rw (le→not_ltb (length b % 256) 6 l)
            (write_packet_total b _ 6 (omega arith) (omega arith) (omega arith)))

  -- A location report is created in any array whose size modulo 256 is twelve at least, and
  -- refused in any other.
  pub create_report_location_packet-Needs :
      (p : LocationPayload) → Needs 12 12 b (create_report_location_packet b (length b) p)
  unfolding create_report_location_packet
  create_report_location_packet-Needs p =
      by_size 12 12 b (λ h. rw (lt→ltb (length b % 256) 12 h)) (λ l h. absurd (omega arith))
        (λ l h.
          rw (le→not_ltb (length b % 256) 12 l)
            (write_packet_total b _ 10 (omega arith) (omega arith) (omega arith)))

  -- An encoder report is created in any array whose size modulo 256 is 18 at least, and refused in
  -- any other.
  pub create_report_encoder_packet-Needs :
      (p : EncoderPayload) → Needs 18 18 b (create_report_encoder_packet b (length b) p)
  unfolding create_report_encoder_packet
  create_report_encoder_packet-Needs p =
      by_size 18 18 b (λ h. rw (lt→ltb (length b % 256) 18 h)) (λ l h. absurd (omega arith))
        (λ l h.
          rw (le→not_ltb (length b % 256) 18 l)
            (write_packet_total b _ 16 (omega arith) (omega arith) (omega arith)))
