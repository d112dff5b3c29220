-- ===== src/MainWindow/State.antt =====
-- BaseStation/BaseStation/MainWindow.xaml.cs: the fields of `MainWindow` that its logic uses. The log
-- and the labels are left out.
use lame.Prelude.{ℕ, Bool, true, false, List, [], ◌∷◌, Option, none, some, Outcome, ok, fault}
use lame.Bler.State.{SockAddr}
use lame.Bler.Sending.{Event, udp_write}

-- The station's own enumeration, with other numbers than the robot's.
pub data DriveMode : Type 0 where
  direct remote ai : DriveMode

-- The locals of `ConnectingWorker`.
pub record Worker : Type 0 where
  pub query_heartbeat_state : Bool
  pub set_drive_mode_state : Bool

-- `receiving` says that `BeginReceive` waits for a datagram.
-- `none` in `last_heartbeat_received` is `DateTime.MinValue`, in `robot_packet_endpoint` it is null;
-- in `worker` it says that `connectionThread` is not alive.
pub record Window : Type 0 where
  pub current_drive_mode : DriveMode
  pub robot_packet_endpoint : Option SockAddr
  pub window_closing : Bool
  pub receiving : Bool
  pub is_connected : Bool
  pub received_drive_mode_ack : Bool
  pub last_heartbeat_received : Option ℕ
  pub worker : Option Worker

-- What the constructor leaves.
unfoldable pub construct : Window
construct = record {
  current_drive_mode = direct;
  robot_packet_endpoint = none;
  window_closing = false;
  receiving = true;
  is_connected = false;
  received_drive_mode_ack = false;
  last_heartbeat_received = none;
  worker = none;
}

-- `packetSocket.Send(buffer, buffer.Length, robotPacketEndpoint)`. Without an endpoint it throws. With
-- one it sends: the `SocketException` by which it reports that the operating system refused the
-- datagram is left out.
unfoldable pub send : List ℕ → Option SockAddr → Outcome (List Event)
send buffer none = fault
send buffer (some endpoint) = ok (udp_write buffer endpoint ∷ [])
