-- ===== src/Packet.antt =====
-- Robot/include/Packet.h, which the robot and the base station share.
pub mod Opcodes
pub mod Payloads
pub mod Cobs
pub mod Header
pub mod Create
pub mod Parse
pub mod Transfer
