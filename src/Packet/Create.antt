-- ===== src/Packet/Create.antt =====
-- Robot/include/Packet.h: the serialize functions. Each gives the caller's array afterwards and
-- what the function returns; `length` is the capacity that the caller states, in a `uint8_t`.
pub mod Write
pub mod Overrun
pub mod Packets
pub mod Clamp
pub mod Fixed
use lame.Prelude.{
  ℕ, ◌+◌, ◌*◌, ◌/◌, List, [], ◌∷◌, Outcome, ok, ◌>>=◌, stores, u8, ltb, if◌then◌else◌,
}
use lame.Prelude.Int.{ℤ, pos, negsuc, ltb_ℤ, signed16, to_half}
use lame.Packet.Opcodes.{
  pkt_header_byte, pkt_end_byte, pkt_min_size, pkt_hdr_index, drive_opcode, remote_switch_opcode,
  switch_mode_ack_opcode, ai_init_opcode, query_location_opcode, report_location_opcode,
  query_encoder_opcode, report_encoder_opcode, enable_encoder_opcode, disable_encoder_opcode,
  query_camera_image_opcode, query_camera1_image_opcode, set_camera_quality_opcode,
  set_camera_location_opcode, query_heartbeat_opcode, report_heartbeat_opcode,
}
use lame.Packet.Payloads.{
  DrivePayload, LocationPayload, EncoderPayload, CameraQualityPayload, CameraLocationPayload,
}
use lame.Packet.Cobs.{encode_cobs}

-- The rounds that `encodeCOBS` is given: its index is a `uint8_t`.
abbrev pub encode_fuel : ℕ
encode_fuel = 256

-- The bytes of an `int16_t`: `(uint8_t)(v >> 8)` and `v & 0xFF`.
abbrev pub high_byte : ℕ → ℕ
high_byte v = u8 (v / 256)

abbrev pub low_byte : ℕ → ℕ
low_byte v = u8 v

-- The bytes are stored from `PKT_HDR_INDEX` on; then `return encodeCOBS(buffer, size);`.
pub write_packet : List ℕ → List ℕ → ℕ → Outcome (List ℕ × ℕ)
write_packet buffer bytes size =
    stores buffer pkt_hdr_index bytes >>= λ filled. encode_cobs encode_fuel filled size

pub create_no_payload_packet : List ℕ → ℕ → ℕ → Outcome (List ℕ × ℕ)
create_no_payload_packet buffer length opcode =
    if ltb (u8 length) (pkt_min_size + 2)
    then ok (buffer, 0)
    else write_packet buffer (pkt_header_byte ∷ opcode ∷ 0 ∷ pkt_end_byte ∷ []) pkt_min_size

unfoldable pub create_query_heartbeat_packet : List ℕ → ℕ → Outcome (List ℕ × ℕ)
create_query_heartbeat_packet buffer length =
    create_no_payload_packet buffer length query_heartbeat_opcode

pub create_report_heartbeat_packet : List ℕ → ℕ → Outcome (List ℕ × ℕ)
create_report_heartbeat_packet buffer length =
    create_no_payload_packet buffer length report_heartbeat_opcode

pub create_switch_mode_ack_packet : List ℕ → ℕ → Outcome (List ℕ × ℕ)
create_switch_mode_ack_packet buffer length =
    create_no_payload_packet buffer length switch_mode_ack_opcode

unfoldable pub create_remote_switch_packet : List ℕ → ℕ → Outcome (List ℕ × ℕ)
create_remote_switch_packet buffer length =
    create_no_payload_packet buffer length remote_switch_opcode

unfoldable pub create_ai_init_packet : List ℕ → ℕ → Outcome (List ℕ × ℕ)
create_ai_init_packet buffer length = create_no_payload_packet buffer length ai_init_opcode

pub create_query_location_packet : List ℕ → ℕ → Outcome (List ℕ × ℕ)
create_query_location_packet buffer length =
    create_no_payload_packet buffer length query_location_opcode

pub create_query_encoder_packet : List ℕ → ℕ → Outcome (List ℕ × ℕ)
create_query_encoder_packet buffer length =
    create_no_payload_packet buffer length query_encoder_opcode

pub create_enable_encoder_packet : List ℕ → ℕ → Outcome (List ℕ × ℕ)
create_enable_encoder_packet buffer length =
    create_no_payload_packet buffer length enable_encoder_opcode

pub create_disable_encoder_packet : List ℕ → ℕ → Outcome (List ℕ × ℕ)
create_disable_encoder_packet buffer length =
    create_no_payload_packet buffer length disable_encoder_opcode

unfoldable pub create_query_camera_image_packet : List ℕ → ℕ → Outcome (List ℕ × ℕ)
create_query_camera_image_packet buffer length =
    create_no_payload_packet buffer length query_camera_image_opcode

unfoldable pub create_query_camera1_image_packet : List ℕ → ℕ → Outcome (List ℕ × ℕ)
create_query_camera1_image_packet buffer length =
    create_no_payload_packet buffer length query_camera1_image_opcode

pub drive_bytes : DrivePayload → List ℕ
drive_bytes p =
    pkt_header_byte ∷ drive_opcode ∷ 5 ∷ p.left ∷ p.right ∷ p.actuator ∷ p.scooper ∷ p.vibrator
    ∷ pkt_end_byte ∷ []

pub create_drive_packet : List ℕ → ℕ → DrivePayload → Outcome (List ℕ × ℕ)
unfolding drive_bytes
create_drive_packet buffer length payload =
    if ltb (u8 length) (pkt_min_size + 5)
    then ok (buffer, 0)
    else write_packet buffer (drive_bytes payload) (pkt_min_size + 5)

pub quality_bytes : CameraQualityPayload → List ℕ
quality_bytes p = pkt_header_byte ∷ set_camera_quality_opcode ∷ 1 ∷ p.quality ∷ pkt_end_byte ∷ []

pub create_set_quality_camera_packet : List ℕ → ℕ → CameraQualityPayload → Outcome (List ℕ × ℕ)
unfolding quality_bytes
create_set_quality_camera_packet buffer length payload =
    if ltb (u8 length) (pkt_min_size + 1)
    then ok (buffer, 0)
    else write_packet buffer (quality_bytes payload) (pkt_min_size + 1)

pub camera_location_bytes : CameraLocationPayload → List ℕ
camera_location_bytes p =
    pkt_header_byte ∷ set_camera_location_opcode ∷ 2 ∷ p.id ∷ p.angle ∷ pkt_end_byte ∷ []

pub create_set_camera_location_packet : List ℕ → ℕ → CameraLocationPayload → Outcome (List ℕ × ℕ)
unfolding camera_location_bytes
create_set_camera_location_packet buffer length payload =
    if ltb (u8 length) (pkt_min_size + 2)
    then ok (buffer, 0)
    else write_packet buffer (camera_location_bytes payload) (pkt_min_size + 2)

-- `__CLAMP(val, max, min)` on an `int16_t`.
pub clamp : ℕ → ℤ → ℤ → ℕ
clamp val max min =
    let capped = if ltb_ℤ max (signed16 val) then to_half max else val in
    if ltb_ℤ (signed16 capped) min then to_half min else capped

-- The nine bytes that the source stores: there is no end byte among them.
unfoldable pub location_bytes : LocationPayload → List ℕ
unfolding clamp
location_bytes p =
    let heading = clamp p.heading (pos 180) (negsuc 179) in
    pkt_header_byte
    ∷ report_location_opcode
    ∷ 6
    ∷ high_byte p.x
    ∷ low_byte p.x
    ∷ high_byte p.y
    ∷ low_byte p.y
    ∷ high_byte heading
    ∷ low_byte heading
    ∷ []

pub create_report_location_packet : List ℕ → ℕ → LocationPayload → Outcome (List ℕ × ℕ)
unfolding location_bytes
create_report_location_packet buffer length payload =
    if ltb (u8 length) (pkt_min_size + 3 * 2 + 2)
    then ok (buffer, 0)
    else write_packet buffer (location_bytes payload) (pkt_min_size + 3 * 2)

pub create_set_location_packet : List ℕ → ℕ → LocationPayload → Outcome (List ℕ × ℕ)
create_set_location_packet buffer length payload =
    create_report_location_packet buffer length payload

-- Here too no end byte is stored.
unfoldable pub encoder_bytes : EncoderPayload → List ℕ
encoder_bytes p =
    pkt_header_byte
    ∷ report_encoder_opcode
    ∷ 12
    ∷ high_byte p.front_left
    ∷ low_byte p.front_left
    ∷ high_byte p.front_right
    ∷ low_byte p.front_right
    ∷ high_byte p.back_left
    ∷ low_byte p.back_left
    ∷ high_byte p.back_right
    ∷ low_byte p.back_right
    ∷ high_byte p.left_actuator
    ∷ low_byte p.left_actuator
    ∷ high_byte p.right_actuator
    ∷ low_byte p.right_actuator
    ∷ []

pub create_report_encoder_packet : List ℕ → ℕ → EncoderPayload → Outcome (List ℕ × ℕ)
unfolding encoder_bytes
create_report_encoder_packet buffer length payload =
    if ltb (u8 length) (pkt_min_size + 6 * 2 + 2)
    then ok (buffer, 0)
    else write_packet buffer (encoder_bytes payload) (pkt_min_size + 6 * 2)
