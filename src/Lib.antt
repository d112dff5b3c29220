-- ===== src/Lib.antt =====
-- LAME is the software of a mining robot (BLER) and of the base station that drives it. The two
-- sides, and an AI process on the robot, exchange small packets over UDP; the robot passes drive
-- packets on to its motor controller over a serial port and sends camera images back over TCP.
--
-- A packet is a header byte 0xAB, an opcode, the size of the payload, the payload, and an end byte
-- 0x7F; it is sent in the code of COBS (consistent overhead byte stuffing), which both sides
-- compute in place on a byte array, followed by a zero.
--
-- The parts and their files:
--
-- - Packet/Opcodes, Packet/Payloads: the constants and the payload structs of
--   Robot/include/Packet.h. A signed field is its bit pattern.
-- - Packet/Cobs: `encodeCOBS` and `decodeCOBS` (encode_cobs, decode_cobs). Packet/Cobs/Reference
--   is an independent definition of the code; Encode and Decode relate the loops to it, Total and
--   Overrun treat arbitrary arrays.
-- - Packet/Header: `ReadPacketHeader` (read_packet_header), its safety and what it accepts.
-- - Packet/Create, Packet/Parse: the `Create…Packet` and `Parse…Payload` functions, under the same
--   names in small letters.
-- - Packet/Transfer: a packet from the sender that creates it to the receiver that parses it.
-- - Bler: the class `BLER` of Robot/src/BLER.cpp and Robot/include/BLER.hpp. State is its fields;
--   Sending is `SendPacketSerial` and `SendPacketUdp`; Udp is `ReceivePacketsFromUdp`; Camera is
--   `SendCameraImage`, `CameraReadThread` and `CameraSendThread`; Execute is `Execute`; Heartbeat
--   is `QueryHeartbeatAI`; Startup is `Run`; Sensors is `ReceivePacketsFromSerial`; Shutdown is
--   the destructor; System is the threads together, as a relation on what they share, a round at a
--   time. Races and Camera/Mutex take single accesses instead: the drive payload that the UDP
--   thread writes while `Execute` reads it, and the images under `cameraMutex`. Life is the object
--   with the serial port and the socket that it owns, from its constructor to its destructor, and
--   `main`. Udp/Spec says what each opcode means without arrays.
-- - PacketHandler: the class `PacketHandler` of BaseStation/BaseStationPacket/PacketHandler.cpp,
--   by which the base station makes and reads packets.
-- - MainWindow: the window of the base station, BaseStation/BaseStation/MainWindow.xaml.cs. State
--   is its fields; Receive is `PacketReceiveCallback`; Connect is `ConnectingWorker`; Buttons is
--   the events of the user interface; Image is `ImageListenerThread`; Joystick is
--   `ReadJoystickValues`, with `Clamp` of BaseStation/BaseStation/Util.cs. Exchange lets the
--   connecting thread and the robot answer each other over a network that loses nothing; Network
--   lets the whole window and the robot run over one that loses, delays, repeats and reorders
--   datagrams; Ready is the states that the events bring the window to.
-- - Devices: the classes of Robot/src/Serial.cpp, Robot/src/TcpClient.cpp and
--   Robot/src/UdpSocket.cpp. Their methods return the calls that they make of the operating
--   system, and Calls counts for each descriptor how often it is acquired and closed; Windows is
--   what the two socket classes do only there.
-- - CommandLine: `main` of Robot/src/main.cpp, up to the robot that it constructs; the rest is in
--   Bler/Life.
-- - Locator: the class of Robot/src/AprilTagsLocator.cpp and Robot/include/AprilTagsLocator.hpp,
--   which finds tags in an image. Numbers is what it does with `float` and `double`; Detect is
--   `GetSphericalFromMat` around the loop, the constructor and the destructor; the body of the
--   loop is in Locator itself.
-- - Logger: the class of BaseStation/BaseStation/Logger.cs, and `LoggerUpdated` of
--   BaseStation/BaseStation/LoggerControl.xaml.cs.
-- - Prelude: lists, Boolean tests, signed integers and machine words over the native numbers,
--   arrays, and results that keep a predicate (Yields). Tests: concrete inputs.
--
-- How the code is modelled. An array is a list of bytes; every access is tested, and one outside
-- the array is a `fault` (Prelude/Memory), so that a theorem with `ok` on the right says that no
-- access leaves the array. Arithmetic on `uint8_t`, `int8_t`, `int16_t` and `unsigned int` is
-- written with its wrap-around. The loop of `encodeCOBS` has an index in a `uint8_t` and does not
-- end for length 255; it has fuel, 256 rounds, which is enough for every shorter length, since the
-- index takes each value at most once. `decodeCOBS` runs at most `length - 2` rounds and needs no
-- fuel. A loop of a thread is modelled by its round, a function from the state and from what the
-- round meets (a datagram, the clock, the joysticks, a frame) to the state and the events that it
-- sends. Memory that the code does not initialise is an argument.
--
-- The loop of `ImageListenerThread` has fuel, which is enough if it is more than the bytes to
-- come, since every round takes one at least. An exception of C# is a `fault` too: the only one of
-- `UdpClient.Send` that is modelled is that for an endpoint which is not set. The sliders move
-- between two rounds of the joystick thread, and a round sees one time.
--
-- The network is the list of all that was sent, from which any datagram can be delivered at any
-- time, any number of times or never. Two threads interleave by their accesses to shared fields:
-- each access is one step, and the structs are copied field by field.
--
-- Parameters stand for what is not in the repository: the byte order functions and constants of
-- the system headers, the compression of an image by OpenCV, the joysticks of JoystickLibrary on
-- either side, the numbers and functions of `float` and `double`, the images of OpenCV, the
-- detector and the matrices of the AprilTags library, and what the operating system answers.
--
-- Not modelled: Robot/apriltags, which is a copy of the AprilTags library; what the user interface
-- under BaseStation/BaseStation shows (labels, bitmaps, colours), and which calls of the log its
-- threads make; the `SocketException` of `UdpClient.Send`; the use of the joystick service after
-- `WindowClosing` has disposed of it; the 150 ms for which a connecting thread that is done still
-- counts as alive, so that a press is ignored; accesses that other threads see out of order, or in
-- part; output to the console.
pub mod Prelude
pub mod Packet
pub mod Bler
pub mod PacketHandler
pub mod MainWindow
pub mod Devices
pub mod CommandLine
pub mod Locator
pub mod Logger
pub mod Tests
