-- ===== src/MainWindow/Network/Rounds.antt =====
-- `ConnectingWorker` and `PacketReceiveCallback` of BaseStation/BaseStation/MainWindow.xaml.cs at each
-- stage of a connection.
use lame.Prelude.{ℕ, ◌≡◌, refl, Bool, true, false, List, [], ◌∷◌, Option, none, some, ok}
use lame.Packet.Opcodes.{query_heartbeat_opcode, remote_switch_opcode, switch_mode_ack_opcode}
use lame.Packet.Create.Fixed.{wire}
use lame.Bler.State.{SockAddr}
use lame.Bler.Sending.{udp_write}
use lame.PacketHandler.Wire.{
  get_query_heartbeat_packet_lem, get_remote_switch_packet_lem, get_packet_opcode-wire,
}
use lame.MainWindow.State.{DriveMode, remote, Window, send}
use lame.MainWindow.Receive.{on_opcode, packet_received}
use lame.MainWindow.Connect.{
  begin_worker, mode_packet, query_heartbeat, set_drive_mode, work, worker_round,
}
use lame.MainWindow.Buttons.{start_connection, update_mode, go_button_clicked}
use lame.MainWindow.Ready.{mode_packet_total}
use lame.MainWindow.Exchange.Steps.{querying, setting, connecting}

-- The window when the thread is done.
abbrev pub settled : DriveMode → SockAddr → Option ℕ → Window
settled mode endpoint last = record {
  current_drive_mode = mode;
  robot_packet_endpoint = some endpoint;
  window_closing = false;
  receiving = true;
  is_connected = true;
  received_drive_mode_ack = true;
  last_heartbeat_received = last;
  worker = none;
}

-- The rounds of the connecting thread.
module _ (mode : DriveMode) (endpoint : SockAddr) where
  pub works-query :
      worker_round (connecting mode endpoint false false none querying) (some querying)
      ≡ ok (
        connecting mode endpoint false false none querying,
        udp_write (wire query_heartbeat_opcode) endpoint ∷ [],
      )
  unfolding worker_round work query_heartbeat send
  works-query = rw get_query_heartbeat_packet_lem

  pub works-heard :
      (ack : Bool) (last : ℕ)
      → worker_round (connecting mode endpoint false ack (some last) querying) (some querying)
        ≡ ok (connecting mode endpoint false ack (some last) setting, [])
  unfolding worker_round work query_heartbeat
  works-heard ack last = refl

  pub works-done :
      (last : Option ℕ)
      → (bytes : List ℕ) × (worker_round
            (connecting mode endpoint false true last setting)
            (some setting)
          ≡ ok (settled mode endpoint last, udp_write bytes endpoint ∷ []))
  unfolding worker_round work set_drive_mode send
  works-done last = let (bytes, made) = mode_packet_total mode in (bytes, rw made)

  pub answers-wire :
      (ack : Bool) (last : Option ℕ) (op now : ℕ)
      → packet_received (connecting mode endpoint false ack last querying) (some (wire op)) now
        ≡ ok (on_opcode (connecting mode endpoint false ack last querying) op now)
  unfolding packet_received
  answers-wire ack last op now = rw (get_packet_opcode-wire op)

-- In remote mode, while there is no acknowledgement.
pub works-waiting :
    (endpoint : SockAddr) (last : Option ℕ)
    → worker_round (connecting remote endpoint false false last setting) (some setting)
      ≡ ok (
        connecting remote endpoint false false last setting,
        udp_write (wire remote_switch_opcode) endpoint ∷ [],
      )
unfolding worker_round work set_drive_mode mode_packet send
works-waiting endpoint last = rw get_remote_switch_packet_lem

pub answers-ack :
    (endpoint : SockAddr) (last : Option ℕ) (now : ℕ)
    → packet_received
        (connecting remote endpoint false false last setting)
        (some (wire switch_mode_ack_opcode))
        now
      ≡ ok (connecting remote endpoint false true last setting)
unfolding packet_received on_opcode
answers-ack endpoint last now = rw (get_packet_opcode-wire switch_mode_ack_opcode)

-- The button while connected.
pub pressed-settled :
    (mode : DriveMode) (endpoint : SockAddr) (last : Option ℕ)
    → go_button_clicked (settled remote endpoint last) none (some mode)
      ≡ connecting mode endpoint false false none querying
unfolding go_button_clicked update_mode start_connection begin_worker
pressed-settled mode endpoint last = refl
