-- ===== src/Bler/Sending.antt =====
-- Robot/src/BLER.cpp: `SendPacketSerial` and `SendPacketUdp`. What a call of the operating system
-- sends is an event; the code ignores the results of these calls.
use lame.Prelude.{ℕ, List, [], ◌∷◌, Option, none, some, take}
use lame.Bler.State.{SockAddr}

pub data Event : Type 0 where
  serial_write : List ℕ → Event
  udp_write : List ℕ → SockAddr → Event
  tcp_write : List ℕ → SockAddr → Event

unfoldable pub send_packet_serial : List ℕ → ℕ → List Event
send_packet_serial buffer length = serial_write (take length buffer) ∷ []

-- `none` is a null address.
unfoldable pub send_packet_udp : List ℕ → ℕ → Option SockAddr → List Event
send_packet_udp buffer length none = []
send_packet_udp buffer length (some addr) = udp_write (take length buffer) addr ∷ []
