-- ===== src/PacketHandler/Values.antt =====
-- BaseStation/BaseStationPacket/PacketHandler.h: the enumeration of opcodes, and `Drive::Equals`.
use lame.Prelude.{ℕ, Bool, false, ◌&&◌, not, Option, none, some}
use lame.Prelude.Int.{ℤ, ltb_ℤ}
use lame.Packet.Opcodes.{
  drive_opcode, direct_switch_opcode, ai_switch_opcode, remote_switch_opcode,
  switch_mode_ack_opcode, ai_init_opcode, query_location_opcode, report_location_opcode,
  set_target_location_opcode, query_encoder_opcode, report_encoder_opcode, enable_encoder_opcode,
  disable_encoder_opcode, query_camera_image_opcode, query_heartbeat_opcode,
  report_heartbeat_opcode, estop_opcode, clear_estop_opcode, set_camera_quality_opcode,
  set_camera_location_opcode,
}
use lame.PacketHandler.{Drive}

pub data Opcode : Type 0 where
  drive direct_switch ai_switch remote_switch switch_mode_ack ai_init query_location report_location
        set_target_location query_encoder report_encoder enable_encoder disable_encoder
        query_camera_image query_heartbeat report_heartbeat estop clear_estop set_camera_quality
        set_camera_location :
      Opcode

pub opcode_value : Opcode → ℕ
opcode_value drive = drive_opcode
opcode_value direct_switch = direct_switch_opcode
opcode_value ai_switch = ai_switch_opcode
opcode_value remote_switch = remote_switch_opcode
opcode_value switch_mode_ack = switch_mode_ack_opcode
opcode_value ai_init = ai_init_opcode
opcode_value query_location = query_location_opcode
opcode_value report_location = report_location_opcode
opcode_value set_target_location = set_target_location_opcode
opcode_value query_encoder = query_encoder_opcode
opcode_value report_encoder = report_encoder_opcode
opcode_value enable_encoder = enable_encoder_opcode
opcode_value disable_encoder = disable_encoder_opcode
opcode_value query_camera_image = query_camera_image_opcode
opcode_value query_heartbeat = query_heartbeat_opcode
opcode_value report_heartbeat = report_heartbeat_opcode
opcode_value estop = estop_opcode
opcode_value clear_estop = clear_estop_opcode
opcode_value set_camera_quality = set_camera_quality_opcode
opcode_value set_camera_location = set_camera_location_opcode

same_int : ℤ → ℤ → Bool
same_int a b = not (ltb_ℤ a b) && not (ltb_ℤ b a)

-- `none` is an object of another type.
pub drive_equals : Drive → Option Drive → Bool
drive_equals d none = false
drive_equals d (some other) =
    same_int d.left other.left
    && (same_int d.right other.right
        && (same_int d.actuator other.actuator
            && (same_int d.scooper other.scooper && same_int d.vibrator other.vibrator)))
