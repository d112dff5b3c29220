-- ===== src/PacketHandler.antt =====
-- BaseStation/BaseStationPacket/PacketHandler.h and PacketHandler.cpp: the base station's wrapper
-- of Packet.h. `System::Int32` is ℤ, a managed array a list.
pub mod Values
pub mod Wire
pub mod Never
pub mod Station
use lame.Prelude.{
  ℕ, Bool, true, false, ◌&&◌, List, [], ◌∷◌, Option, none, some, take, replicate, Outcome, ok,
  fault, ◌>>=◌, ◌==◌, if◌then◌else◌,
}
use lame.Prelude.Int.{ℤ, pos, ltb_ℤ, signed16, to_byte}
use lame.Packet.Opcodes.{report_heartbeat_opcode, report_location_opcode, report_encoder_opcode}
use lame.Packet.Payloads.{
  DrivePayload, LocationPayload, EncoderPayload, CameraQualityPayload, CameraLocationPayload,
}
use lame.Packet.Header.{HeaderRead, read_packet_header, pointee}
use lame.Packet.Create.{
  create_query_heartbeat_packet, create_report_heartbeat_packet, create_remote_switch_packet,
  create_ai_init_packet, create_query_location_packet, create_query_encoder_packet,
  create_query_camera_image_packet, create_query_camera1_image_packet, create_enable_encoder_packet,
  create_disable_encoder_packet, create_drive_packet, create_set_quality_camera_packet,
  create_set_camera_location_packet,
}
use lame.Packet.Parse.{parse_location_payload, parse_encoder_payload}

pub record Drive : Type 0 where
  pub left : ℤ
  pub right : ℤ
  pub actuator : ℤ
  pub scooper : ℤ
  pub vibrator : ℤ

pub record Location : Type 0 where
  pub x : ℤ
  pub y : ℤ
  pub heading : ℤ

pub record Encoder : Type 0 where
  pub front_left : ℤ
  pub front_right : ℤ
  pub back_left : ℤ
  pub back_right : ℤ
  pub left_actuator : ℤ
  pub right_actuator : ℤ

pub record CameraQuality : Type 0 where
  pub quality : ℤ

pub record CameraLocation : Type 0 where
  pub id : ℤ
  pub angle : ℤ

pub clamp : ℤ → ℤ → ℤ → ℤ
clamp val max min = if ltb_ℤ max val then max else if ltb_ℤ val min then min else val

-- The managed copy of the first `bytes_written` bytes.
pub managed : Outcome (List ℕ × ℕ) → Outcome (List ℕ)
managed written = written >>= λ s. ok (take s.1 s.0)

pub get_no_payload_packet : (List ℕ → ℕ → Outcome (List ℕ × ℕ)) → Outcome (List ℕ)
unfolding managed
get_no_payload_packet func = managed (func (replicate 128 0) 128)

pub get_query_heartbeat_packet : Outcome (List ℕ)
get_query_heartbeat_packet = get_no_payload_packet create_query_heartbeat_packet

pub get_report_heartbeat_packet : Outcome (List ℕ)
get_report_heartbeat_packet = get_no_payload_packet create_report_heartbeat_packet

pub get_remote_switch_packet : Outcome (List ℕ)
get_remote_switch_packet = get_no_payload_packet create_remote_switch_packet

pub get_ai_init_packet : Outcome (List ℕ)
get_ai_init_packet = get_no_payload_packet create_ai_init_packet

pub get_query_location_packet : Outcome (List ℕ)
get_query_location_packet = get_no_payload_packet create_query_location_packet

pub get_query_encoder_packet : Outcome (List ℕ)
get_query_encoder_packet = get_no_payload_packet create_query_encoder_packet

pub get_query_camera_image_packet : Outcome (List ℕ)
get_query_camera_image_packet = get_no_payload_packet create_query_camera_image_packet

pub get_query_camera1_image_packet : Outcome (List ℕ)
get_query_camera1_image_packet = get_no_payload_packet create_query_camera1_image_packet

pub get_enable_encoder_packet : Outcome (List ℕ)
get_enable_encoder_packet = get_no_payload_packet create_enable_encoder_packet

pub get_disable_encoder_packet : Outcome (List ℕ)
get_disable_encoder_packet = get_no_payload_packet create_disable_encoder_packet

unfoldable pub drive_payload : Drive → DrivePayload
drive_payload drive = record {
  left = to_byte drive.left;
  right = to_byte drive.right;
  vibrator = to_byte drive.vibrator;
  actuator = to_byte drive.actuator;
  scooper = to_byte drive.scooper;
}

pub get_drive_packet : Drive → Outcome (List ℕ)
get_drive_packet drive = managed (create_drive_packet (replicate 128 0) 128 (drive_payload drive))

pub get_set_camera_quality_packet : CameraQuality → Outcome (List ℕ)
get_set_camera_quality_packet cq = managed (
    create_set_quality_camera_packet (replicate 128 0) 128
      (record { quality = to_byte (clamp cq.quality (pos 100) (pos 0)) }))

pub get_set_camera_location_packet : CameraLocation → Outcome (List ℕ)
get_set_camera_location_packet cl = managed (
    create_set_camera_location_packet (replicate 128 0) 128
      (record { id = to_byte cl.id; angle = to_byte cl.angle }))

-- `pin_ptr<uint8_t> pinned = &buffer[0];` of an empty array throws.
pub pinned : List ℕ → Outcome (List ℕ)
pinned [] = fault
pinned (b ∷ buffer) = ok (b ∷ buffer)

abbrev pub value_or_zero : Option ℕ → ℕ
value_or_zero none = 0
value_or_zero (some v) = v

pub get_packet_opcode : List ℕ → ℤ → Outcome ℕ
get_packet_opcode buffer length = pinned buffer >>= λ src.
    read_packet_header (some src) (to_byte length) (some 0) none >>= λ h.
    ok (value_or_zero h.opcode)

-- `ReadPacketHeader(…) == 1`, then the opcode.
pub parse_no_payload_packet : List ℕ → ℤ → ℕ → Outcome Bool
parse_no_payload_packet buffer length opcode = pinned buffer >>= λ src.
    read_packet_header (some src) (to_byte length) (some 0) none >>= λ h.
    ok (if h.result == 1 then value_or_zero h.opcode == opcode else false)

pub parse_report_heartbeat_packet : List ℕ → ℤ → Outcome Bool
parse_report_heartbeat_packet buffer length =
    parse_no_payload_packet buffer length report_heartbeat_opcode

pub location_of : Option LocationPayload → Option Location
location_of none = none
location_of (some p) =
    some (record { x = signed16 p.x; y = signed16 p.y; heading = signed16 p.heading })

-- The tests before the payload is parsed: success, a payload, the opcode.
pub accepts : HeaderRead → ℕ → Bool
accepts h opcode =
    h.result == 1
    && (elim (pointee h.payload_ptr) [ none ↦ false | some p ↦ value_or_zero h.opcode == opcode ])

-- `none` is a return of false; `some` is the location that is handed out.
pub parse_report_location_packet : List ℕ → ℤ → Outcome (Option Location)
parse_report_location_packet buffer length = pinned buffer >>= λ src.
    read_packet_header (some src) (to_byte length) (some 0) (some none) >>= λ h.
    if accepts h report_location_opcode
    then (parse_location_payload h.buffer (pointee h.payload_ptr)
          (some (record { x = 0; y = 0; heading = 0 }))
        >>= λ loc. ok (location_of loc))
    else ok none

pub encoder_of : Option EncoderPayload → Option Encoder
encoder_of none = none
encoder_of (some p) = some (record {
  front_left = signed16 p.front_left;
  front_right = signed16 p.front_right;
  back_left = signed16 p.back_left;
  back_right = signed16 p.back_right;
  left_actuator = signed16 p.left_actuator;
  right_actuator = signed16 p.right_actuator;
})

abbrev no_encoder : EncoderPayload
no_encoder = record {
  front_left = 0;
  front_right = 0;
  back_left = 0;
  back_right = 0;
  left_actuator = 0;
  right_actuator = 0;
}

pub parse_report_encoder_packet : List ℕ → ℤ → Outcome (Option Encoder)
parse_report_encoder_packet buffer length = pinned buffer >>= λ src.
    read_packet_header (some src) (to_byte length) (some 0) (some none) >>= λ h.
    if accepts h report_encoder_opcode
    then (parse_encoder_payload h.buffer (pointee h.payload_ptr) (some no_encoder) >>= λ enc.
        ok (encoder_of enc))
    else ok none
