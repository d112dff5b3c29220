-- ===== src/MainWindow/Exchange/Deaf.antt =====
-- What `ConnectingWorker` of BaseStation/BaseStation/MainWindow.xaml.cs comes to after
-- `PacketReceiveCallback` has met a `SocketException`.
use lame.Prelude.{
  ℕ, ◌≡◌, refl, Bool, Bool-cases, inl, inr, false, List, [], ◌∷◌, Option, none, some, ok,
}
use lame.Packet.Opcodes.{query_heartbeat_opcode}
use lame.Packet.Create.Fixed.{wire}
use lame.Bler.State.{Sockets, SockAddr, Bler}
use lame.Bler.Sending.{Event, serial_write, udp_write, tcp_write}
use lame.Bler.Udp.{Surroundings, Round}
use lame.Bler.Udp.Replies.{udp_round-query_heartbeat}
use lame.PacketHandler.Wire.{get_query_heartbeat_packet_lem}
use lame.MainWindow.State.{DriveMode, Window, send}
use lame.MainWindow.Receive.{packet_received}
use lame.MainWindow.Buttons.{start_connection, connect_to, go_button_clicked}
use lame.MainWindow.Connect.{begin_worker, query_heartbeat, work, worker_round}
use lame.MainWindow.Exchange.{Pair, same_addr, receive_at, deliver_back, exchange, exchanges}
use lame.MainWindow.Exchange.Steps.{querying, pair_of, exchange-sent}

-- The window that asks and hears nothing.
abbrev asking : DriveMode → SockAddr → Bool → Window
asking mode endpoint closing = record {
  current_drive_mode = mode;
  robot_packet_endpoint = some endpoint;
  window_closing = closing;
  receiving = false;
  is_connected = false;
  received_drive_mode_ack = false;
  last_heartbeat_received = none;
  worker = some querying;
}

receive_at-deaf :
    (station addr : SockAddr) (w : Window) (bytes : List ℕ) (now : ℕ)
    → w.receiving ≡ false
    → receive_at station w bytes addr now ≡ ok w
unfolding receive_at
receive_at-deaf station addr w bytes now deaf = elim (Bool-cases (same_addr addr station)) [
  | inl here ↦ simp (here, deaf) refl
  | inr elsewhere ↦ simp elsewhere refl
]

deliver_back-deaf :
    (station : SockAddr) (w : Window) (events : List Event) (now : ℕ)
    → w.receiving ≡ false
    → deliver_back station w events now ≡ ok w
unfolding deliver_back
deliver_back-deaf station w [] now deaf = refl
deliver_back-deaf station w (serial_write bytes ∷ events) now deaf =
    deliver_back-deaf station w events now deaf
deliver_back-deaf station w (tcp_write bytes addr ∷ events) now deaf =
    deliver_back-deaf station w events now deaf
deliver_back-deaf station w (udp_write bytes addr ∷ events) now deaf =
    simp (receive_at-deaf station addr w bytes now deaf)
      (deliver_back-deaf station w events now deaf)

-- The button, after the exception has ended the thread before.
go_button_clicked-asking :
    (w : Window) (endpoint : SockAddr) (mode : DriveMode)
    → w.is_connected ≡ false
    → go_button_clicked (record w { worker = none; receiving = false }) (some endpoint) (some mode)
      ≡ asking mode endpoint w.window_closing
unfolding go_button_clicked connect_to start_connection begin_worker
go_button_clicked-asking w endpoint mode off = simp off

module _ {Frame : Type 0} (imencode : Frame → ℕ → Option (List ℕ)) (sys : Sockets)
    (station endpoint : SockAddr) (mode : DriveMode) (closing : Bool) where
  exchange-asking :
      (r : Bler Frame) (read_buffer : List ℕ) (env : Surroundings)
      → (after : Round Frame) × (exchange imencode sys station
            (record { window = asking mode endpoint closing; robot = r; read_buffer = read_buffer })
            env
          ≡ ok (pair_of imencode sys station (asking mode endpoint closing) after))
  unfolding worker_round work query_heartbeat send
  exchange-asking r read_buffer env =
      let (after, received, calm, answer) =
        udp_round-query_heartbeat imencode sys r read_buffer station env in
      let w = asking mode endpoint closing in
      (
        after,
        exchange-sent imencode sys station _ w w (wire query_heartbeat_opcode) endpoint env after
            (rw get_query_heartbeat_packet_lem) received
            (deliver_back-deaf station w after.events env.now refl),
      )

  exchanges-asking :
      (r : Bler Frame) (read_buffer : List ℕ) (envs : List Surroundings)
      → (last : Pair Frame) × (exchanges imencode sys station
            (record { window = asking mode endpoint closing; robot = r; read_buffer = read_buffer })
            envs
          ≡ ok last)
        × (last.window ≡ asking mode endpoint closing)
  unfolding exchanges
  exchanges-asking r b [] = (_, refl, refl)
  exchanges-asking r b (env ∷ envs) =
      let (after, e) = exchange-asking r b env in
      let (last, es, same) = exchanges-asking after.robot after.read_buffer envs in
      (last, rw e es, same)

-- Once `EndReceive` has thrown a `SocketException`, an unconnected window never connects again,
-- whatever mode the button asks for: however many rounds its thread makes, with every datagram
-- delivered to the robot and answered by it, the window has heard nothing and its thread is alive.
pub exchanges-deaf :
    {Frame : Type 0} (imencode : Frame → ℕ → Option (List ℕ)) (sys : Sockets)
    (station endpoint : SockAddr) (mode : DriveMode) (w : Window) (r : Bler Frame)
    (read_buffer : List ℕ) (now : ℕ) (envs : List Surroundings)
    → w.is_connected ≡ false
    → (deaf : Window) × (last : Pair Frame) × (packet_received w none now ≡ ok deaf)
      × (exchanges imencode sys station
            (record {
              window = go_button_clicked deaf (some endpoint) (some mode);
              robot = r;
              read_buffer = read_buffer;
            })
            envs
          ≡ ok last)
      × (last.window.is_connected ≡ false)
      × (last.window.last_heartbeat_received ≡ none)
      × (last.window.worker ≡ some querying)
unfolding packet_received
exchanges-deaf imencode sys station endpoint mode w r read_buffer now envs off =
    let (last, e, same) =
      exchanges-asking imencode sys station endpoint mode w.window_closing r read_buffer envs in
    (
      record w { worker = none; receiving = false },
      last,
      refl,
      rw (go_button_clicked-asking w endpoint mode off) e,
      rw same,
      rw same,
      rw same,
    )
