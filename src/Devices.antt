-- ===== src/Devices.antt =====
-- The classes of Robot/src that wrap the operating system's descriptors. What a system call
-- answers is an argument; which calls are made is part of the result.
pub mod Calls
pub mod SerialPort
pub mod TcpClient
pub mod UdpSocket
pub mod Windows
