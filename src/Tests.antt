-- ===== src/Tests.antt =====
-- Concrete inputs of the code, and the theorems applied to them.
pub mod Samples
pub mod Packets
pub mod Robot
pub mod Station
pub mod Window
pub mod Network
pub mod Threads
pub mod Life
pub mod Tags
pub mod Sockets
pub mod Log
