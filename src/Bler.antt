-- ===== src/Bler.antt =====
-- Robot/src/BLER.cpp and Robot/include/BLER.hpp: the robot's object, one file for its state and one
-- for each of its threads.
pub mod State
pub mod Sending
pub mod Camera
pub mod Udp
pub mod Execute
pub mod Heartbeat
pub mod Startup
pub mod Sensors
pub mod Shutdown
pub mod System
pub mod Life
pub mod Races
