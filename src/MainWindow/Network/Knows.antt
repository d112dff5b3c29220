-- ===== src/MainWindow/Network/Knows.antt =====
-- When the window of BaseStation/BaseStation/MainWindow.xaml.cs takes the robot to be in remote mode.
use lame.Prelude.{
  ℕ, ◌≡◌, refl, ◌∙◌, ◌⊎◌, inl, inr, Bool, Bool-cases, true, false, List, Option, none, some,
  Outcome, ok, ◌>>=◌, if◌then◌else◌, ◌==◌, ==_iff,
}
use lame.Prelude.Yields.{Yields, Yields-bind, Yields-if, Any, Yields-Any}
use lame.Packet.Opcodes.{report_heartbeat_opcode, remote_switch_opcode, switch_mode_ack_opcode}
use lame.Bler.State.{SockAddr, DriveMode as RobotMode, remote as in_remote}
use lame.Bler.Sending.{Event}
use lame.Bler.Udp.Obeys.{IsReply}
use lame.PacketHandler.{get_query_heartbeat_packet}
use lame.PacketHandler.Wire.{get_packet_opcode-wire}
use lame.MainWindow.State.{DriveMode, Worker, Window, construct, send}
use lame.MainWindow.Receive.{on_opcode, packet_received}
use lame.MainWindow.Connect.{
  begin_worker, mode_packet, query_heartbeat, set_drive_mode, work, worker_round,
}
use lame.MainWindow.Buttons.{
  start_connection, update_mode, connect_to, go_button_clicked, close_window,
}

-- It has an acknowledgement, or is connected, only if the robot is in remote mode.
pub record Knows (mode : RobotMode) (w : Window) : Type 0 where
  pub acked : w.received_drive_mode_ack ≡ true → mode ≡ in_remote
  pub on : w.is_connected ≡ true → mode ≡ in_remote

true≢false : {A : Type 0} → false ≡ true → A
true≢false e = absurd (cc e)

pub construct-Knows : (mode : RobotMode) → Knows mode construct
unfolding construct
construct-Knows mode = record { acked = true≢false; on = true≢false }

-- The robot's later modes.
pub Knows-later :
    (mode mode' : RobotMode) (w : Window)
    → (mode' ≡ mode) ⊎ (mode' ≡ in_remote)
    → Knows mode w
    → Knows mode' w
Knows-later mode mode' w (inl same) k = record {
  acked = λ e. same ∙ k.acked e;
  on = λ e. same ∙ k.on e;
}
Knows-later mode mode' w (inr now) k = record { acked = λ e. now; on = λ e. now }

module _ (mode : RobotMode) where
  if-Knows :
      (test : Bool) (w w' : Window)
      → Knows mode w
      → Knows mode w'
      → Knows mode (if test then w else w')
  if-Knows true w w' k k' = k
  if-Knows false w w' k k' = k'

  start_connection-Knows :
      (w : Window) (thread : Option Worker) → Knows mode w → Knows mode (start_connection w thread)
  unfolding start_connection begin_worker
  start_connection-Knows w none k = record { acked = true≢false; on = k.on }
  start_connection-Knows w (some state) k = k

  update_mode-Knows :
      (w : Window) (to : Option DriveMode) → Knows mode w → Knows mode (update_mode w to)
  unfolding update_mode
  update_mode-Knows w none k = k
  update_mode-Knows w (some m) k =
      start_connection-Knows _ w.worker (record { acked = k.acked; on = true≢false })

  connect_to-Knows :
      (w : Window) (addr : Option SockAddr) (to : Option DriveMode)
      → Knows mode w
      → Knows mode (connect_to w addr to)
  unfolding connect_to
  connect_to-Knows w none to k = k
  connect_to-Knows w (some addr) none k = record { acked = k.acked; on = k.on }
  connect_to-Knows w (some addr) (some m) k =
      start_connection-Knows _ w.worker (record { acked = k.acked; on = k.on })

  pub go_button_clicked-Knows :
      (w : Window) (addr : Option SockAddr) (to : Option DriveMode)
      → Knows mode w
      → Knows mode (go_button_clicked w addr to)
  unfolding go_button_clicked
  go_button_clicked-Knows w addr to k =
      if-Knows w.is_connected _ _ (update_mode-Knows w to k) (connect_to-Knows w addr to k)

  pub close_window-Knows : (w : Window) → Knows mode w → Knows mode (close_window w)
  unfolding close_window
  close_window-Knows w k = record { acked = k.acked; on = k.on }

  -- A round of the connecting thread: connected only by an acknowledgement.
  abbrev Ended : Window × List Event → Type 0
  Ended x = Knows mode x.0

  sending-Knows :
      (made : Outcome (List ℕ)) (endpoint : Option SockAddr) (w : Window)
      → Knows mode w
      → Yields Ended (made >>= λ buffer. send buffer endpoint >>= λ sent. ok (w, sent))
  sending-Knows made endpoint w k = Yields-bind Any Ended made _ (Yields-Any made) (λ buffer _.
      Yields-bind Any Ended (send buffer endpoint) _ (Yields-Any (send buffer endpoint))
        (λ sent _. k))

  query_heartbeat-Knows :
      (w : Window) (last : Option ℕ) → Knows mode w → Yields Ended (query_heartbeat w last)
  unfolding query_heartbeat
  query_heartbeat-Knows w (some received) k = record { acked = k.acked; on = k.on }
  query_heartbeat-Knows w none k =
      sending-Knows get_query_heartbeat_packet w.robot_packet_endpoint w k

  finished-Knows :
      (w : Window) (acked : Bool)
      → w.received_drive_mode_ack ≡ acked
      → Knows mode w
      → Knows mode (if acked then record w { is_connected = true; worker = none } else w)
  finished-Knows w true e k = record { acked = k.acked; on = λ _. k.acked e }
  finished-Knows w false e k = k

  set_drive_mode-Knows : (w : Window) → Knows mode w → Yields Ended (set_drive_mode w)
  unfolding set_drive_mode
  set_drive_mode-Knows w k =
      sending-Knows (mode_packet w.current_drive_mode) w.robot_packet_endpoint _
        (finished-Knows w w.received_drive_mode_ack refl k)

  pub worker_round-Knows :
      (w : Window) (thread : Option Worker) → Knows mode w → Yields Ended (worker_round w thread)
  unfolding worker_round work
  worker_round-Knows w none k = k
  worker_round-Knows w (some state) k =
      Yields-if Ended state.query_heartbeat_state _ _
        (query_heartbeat-Knows w w.last_heartbeat_received k)
        (Yields-if Ended state.set_drive_mode_state _ _ (set_drive_mode-Knows w k)
          (record { acked = k.acked; on = k.on }))

  on_opcode-Knows :
      (w : Window) (op now : ℕ)
      → ((op ≡ switch_mode_ack_opcode) → mode ≡ in_remote)
      → Knows mode w
      → Knows mode (on_opcode w op now)
  unfolding on_opcode
  on_opcode-Knows w op now honest k =
      if-Knows (op == report_heartbeat_opcode) _ _ (record { acked = k.acked; on = k.on })
        (if-Knows (op == remote_switch_opcode) _ _ (record { acked = k.acked; on = k.on })
          (elim (Bool-cases (op == switch_mode_ack_opcode)) [
            | inl ack ↦ rw ack (record {
              acked = λ e. honest ((==_iff op switch_mode_ack_opcode).0 ack);
              on = k.on;
            })
            | inr other ↦ rw other k
          ]))

  pub packet_received-Knows :
      (w : Window) (bytes : List ℕ) (now : ℕ)
      → IsReply mode bytes
      → Knows mode w
      → Yields (Knows mode) (packet_received w (some bytes) now)
  unfolding packet_received
  packet_received-Knows w bytes now (op, here, honest) k =
      rw (here, get_packet_opcode-wire op) (on_opcode-Knows w op now honest k)

  pub packet_received-none-Knows :
      (w : Window) (now : ℕ) → Knows mode w → Yields (Knows mode) (packet_received w none now)
  unfolding packet_received
  packet_received-none-Knows w now k = record { acked = k.acked; on = k.on }
