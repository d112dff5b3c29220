-- ===== src/MainWindow/Exchange/Steps.antt =====
-- One round of `ConnectingWorker` of BaseStation/BaseStation/MainWindow.xaml.cs with the robot's
-- answer, at each stage of the connection.
use lame.Prelude.{ℕ, ◌≡◌, refl, Bool, true, false, List, [], ◌∷◌, Option, none, some, ok, arith}
use lame.Packet.Opcodes.{query_heartbeat_opcode, report_heartbeat_opcode}
use lame.Packet.Create.Fixed.{wire}
use lame.Bler.State.{Sockets, SockAddr, Bler}
use lame.Bler.Sending.{Event, udp_write}
use lame.Bler.Udp.{Surroundings, datagram, Round, udp_round}
use lame.Bler.Udp.Replies.{IsCalm, udp_round-query_heartbeat}
use lame.PacketHandler.Wire.{get_query_heartbeat_packet_lem, get_packet_opcode-wire}
use lame.MainWindow.State.{DriveMode, Worker, Window, send}
use lame.MainWindow.Receive.{on_opcode, packet_received}
use lame.MainWindow.Buttons.{start_connection, connect_to, go_button_clicked}
use lame.MainWindow.Connect.{begin_worker, query_heartbeat, work, worker_round}
use lame.MainWindow.Exchange.{Pair, same_addr, receive_at, deliver_back, deliver, exchange}

abbrev pub querying : Worker
querying = record { query_heartbeat_state = true; set_drive_mode_state = false }

abbrev pub setting : Worker
setting = record { query_heartbeat_state = false; set_drive_mode_state = true }

-- The window while the thread is alive: the mode it asks for, the robot's address, whether it has
-- the acknowledgement, the time of the last heartbeat, and the thread's locals.
abbrev pub connecting : DriveMode → SockAddr → Bool → Bool → Option ℕ → Worker → Window
connecting mode endpoint closing ack last state = record {
  current_drive_mode = mode;
  robot_packet_endpoint = some endpoint;
  window_closing = closing;
  receiving = true;
  is_connected = false;
  received_drive_mode_ack = ack;
  last_heartbeat_received = last;
  worker = some state;
}

-- The button, with no connection and no thread, starts the thread at its first stage.
pub go_button_clicked-connecting :
    (w : Window) (endpoint : SockAddr) (mode : DriveMode)
    → w.is_connected ≡ false
    → w.worker ≡ none
    → w.receiving ≡ true
    → go_button_clicked w (some endpoint) (some mode)
      ≡ connecting mode endpoint w.window_closing false none querying
unfolding go_button_clicked connect_to start_connection begin_worker
go_button_clicked-connecting w endpoint mode off idle listens = simp (off, idle, listens)

pub same_addr_refl : (a : SockAddr) → same_addr a a ≡ true
unfolding same_addr
same_addr_refl a = ground arith

receive_at-wire :
    (station addr : SockAddr) (w : Window) (op now : ℕ)
    → addr ≡ station
    → w.receiving ≡ true
    → receive_at station w (wire op) addr now ≡ ok (on_opcode w op now)
unfolding receive_at packet_received
receive_at-wire station addr w op now e listens =
    rw e (simp (same_addr_refl station, listens, get_packet_opcode-wire op) refl)

-- The one answer that comes back.
pub deliver_back-wire :
    (station addr : SockAddr) (w : Window) (op now : ℕ) (events : List Event)
    → addr ≡ station
    → w.receiving ≡ true
    → events ≡ udp_write (wire op) addr ∷ []
    → deliver_back station w events now ≡ ok (on_opcode w op now)
unfolding deliver_back
deliver_back-wire station addr w op now events here listens e =
    rw (e, receive_at-wire station addr w op now here listens)

pub deliver_back-none :
    (station : SockAddr) (w : Window) (now : ℕ) (events : List Event)
    → events ≡ []
    → deliver_back station w events now ≡ ok w
unfolding deliver_back
deliver_back-none station w now events e = rw e

module _ {Frame : Type 0} (imencode : Frame → ℕ → Option (List ℕ)) (sys : Sockets)
    (station : SockAddr) where
  abbrev pub pair_of : Window → Round Frame → Pair Frame
  pair_of w after = record { window = w; robot = after.robot; read_buffer = after.read_buffer }

  -- The one datagram that is sent and what it causes.
  pub exchange-sent :
      (p : Pair Frame) (w w' : Window) (bytes : List ℕ) (endpoint : SockAddr) (env : Surroundings)
      (after : Round Frame)
      → worker_round p.window p.window.worker ≡ ok (w, udp_write bytes endpoint ∷ [])
      → udp_round imencode sys p.robot p.read_buffer env (datagram bytes station) ≡ ok after
      → deliver_back station w after.events env.now ≡ ok w'
      → exchange imencode sys station p env ≡ ok (pair_of w' after)
  unfolding exchange deliver
  exchange-sent p w w' bytes endpoint env after sent received back = rw (sent, received, back)

  module _ (mode : DriveMode) (endpoint : SockAddr) (closing : Bool) (r : Bler Frame)
      (read_buffer : List ℕ) (env : Surroundings) where
    -- The robot answers the query.
    pub exchange-query :
        (after : Round Frame) × (exchange imencode sys station
            (record {
              window = connecting mode endpoint closing false none querying;
              robot = r;
              read_buffer = read_buffer;
            })
            env
          ≡ ok (pair_of (connecting mode endpoint closing false (some env.now) querying) after))
        × IsCalm r after.robot
    unfolding worker_round work query_heartbeat on_opcode send
    exchange-query =
        let (after, received, calm, answer) =
          udp_round-query_heartbeat imencode sys r read_buffer station env in
        let w = connecting mode endpoint closing false none querying in
        (
          after,
          exchange-sent _ w _ (wire query_heartbeat_opcode) endpoint env after
              (rw get_query_heartbeat_packet_lem) received
              (deliver_back-wire station station w report_heartbeat_opcode env.now after.events refl
                refl answer),
          calm,
        )

    -- The thread notices the answer.
    pub exchange-heard :
        (received : ℕ)
        → exchange imencode sys station
            (record {
              window = connecting mode endpoint closing false (some received) querying;
              robot = r;
              read_buffer = read_buffer;
            })
            env
          ≡ ok (record {
            window = connecting mode endpoint closing false (some received) setting;
            robot = r;
            read_buffer = read_buffer;
          })
    unfolding worker_round work query_heartbeat exchange deliver
    exchange-heard received = refl
