-- ===== src/Packet/Opcodes.antt =====
-- Robot/include/Packet.h: the constants of the packet format and the opcodes.
use lame.Prelude.{ℕ}

abbrev pub pkt_header_byte : ℕ
pkt_header_byte = 0xab

abbrev pub pkt_end_byte : ℕ
pkt_end_byte = 0x7f

abbrev pub pkt_min_size : ℕ
pkt_min_size = 4

abbrev pub pkt_hdr_index : ℕ
pkt_hdr_index = 0

abbrev pub pkt_op_index : ℕ
pkt_op_index = 1

abbrev pub pkt_payload_size_index : ℕ
pkt_payload_size_index = 2

abbrev pub pkt_payload_start_index : ℕ
pkt_payload_start_index = 3

abbrev pub drive_opcode : ℕ
drive_opcode = 0x99

abbrev pub direct_switch_opcode : ℕ
direct_switch_opcode = 0x90

abbrev pub ai_switch_opcode : ℕ
ai_switch_opcode = 0x91

abbrev pub remote_switch_opcode : ℕ
remote_switch_opcode = 0x92

abbrev pub switch_mode_ack_opcode : ℕ
switch_mode_ack_opcode = 0x93

abbrev pub ai_init_opcode : ℕ
ai_init_opcode = 0x02

abbrev pub query_location_opcode : ℕ
query_location_opcode = 0x44

abbrev pub report_location_opcode : ℕ
report_location_opcode = 0x45

abbrev pub set_target_location_opcode : ℕ
set_target_location_opcode = 0x46

abbrev pub query_encoder_opcode : ℕ
query_encoder_opcode = 0x50

abbrev pub report_encoder_opcode : ℕ
report_encoder_opcode = 0x47

abbrev pub enable_encoder_opcode : ℕ
enable_encoder_opcode = 0x4a

abbrev pub disable_encoder_opcode : ℕ
disable_encoder_opcode = 0x4b

abbrev pub query_camera_image_opcode : ℕ
query_camera_image_opcode = 0x13

abbrev pub query_camera1_image_opcode : ℕ
query_camera1_image_opcode = 0x15

abbrev pub set_camera_quality_opcode : ℕ
set_camera_quality_opcode = 0x16

abbrev pub set_camera_location_opcode : ℕ
set_camera_location_opcode = 0x17

abbrev pub query_heartbeat_opcode : ℕ
query_heartbeat_opcode = 0x14

abbrev pub report_heartbeat_opcode : ℕ
report_heartbeat_opcode = 0x44

abbrev pub estop_opcode : ℕ
estop_opcode = 0xaa

abbrev pub clear_estop_opcode : ℕ
clear_estop_opcode = 0xab
