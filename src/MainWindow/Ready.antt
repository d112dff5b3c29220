-- ===== src/MainWindow/Ready.antt =====
-- The states that the events of BaseStation/BaseStation/MainWindow.xaml.cs can bring the window to.
pub mod Targets
pub mod Threads
use lame.Prelude.{
  ℕ, ◌≡◌, refl, sym, ap, ◌∙◌, ok-injective, ◌⊎◌, inl, inr, Bool, Bool-cases, true, false, List, [],
  ◌∷◌, Option, none, some, length, Outcome, ok, ◌>>=◌, ◌==◌, if◌then◌else◌,
}
use lame.Prelude.Yields.{Yields, Yields-bind, Any, Yields-Any}
use lame.Packet.Create.Fixed.{wire}
use lame.Bler.State.{SockAddr}
use lame.Bler.Sending.{Event, udp_write}
use lame.Prelude.Int.{pos}
use lame.Packet.Opcodes.{
  query_heartbeat_opcode, report_heartbeat_opcode, remote_switch_opcode, switch_mode_ack_opcode,
}
use lame.PacketHandler.{get_packet_opcode}
use lame.PacketHandler.Wire.{
  get_query_heartbeat_packet_lem, get_remote_switch_packet_lem, get_ai_init_packet_lem,
}
use lame.MainWindow.State.{DriveMode, direct, remote, ai, Worker, Window, construct, send}
use lame.MainWindow.Receive.{on_opcode, packet_received}
use lame.MainWindow.Connect.{
  begin_worker, mode_packet, query_heartbeat, set_drive_mode, work, worker_round,
}
use lame.MainWindow.Buttons.{
  start_connection, update_mode, connect_to, go_button_clicked, close_window,
}

-- The window has the robot's address, or is neither connected nor connecting.
pub data IsReady (w : Window) : Type 0 where
  addressed : (endpoint : SockAddr) → w.robot_packet_endpoint ≡ some endpoint → IsReady w
  idle : w.is_connected ≡ false → w.worker ≡ none → IsReady w

-- What happens to a window, in any order.
pub data Reached : Window → Type 0 where
  opens : Reached construct
  receives :
      (w w' : Window) (buffer : Option (List ℕ)) (now : ℕ)
      → Reached w
      → packet_received w buffer now ≡ ok w'
      → Reached w'
  works :
      (w w' : Window) (events : List Event)
      → Reached w
      → worker_round w w.worker ≡ ok (w', events)
      → Reached w'
  pressed :
      (w : Window) (addr : Option SockAddr) (mode : Option DriveMode)
      → Reached w
      → Reached (go_button_clicked w addr mode)
  closed : (w : Window) → Reached w → Reached (close_window w)

if-IsReady :
    (test : Bool) (w w' : Window) → IsReady w → IsReady w' → IsReady (if test then w else w')
if-IsReady true w w' ready ready' = ready
if-IsReady false w w' ready ready' = ready'

on_opcode-IsReady : (w : Window) (op now : ℕ) → IsReady w → IsReady (on_opcode w op now)
unfolding on_opcode
on_opcode-IsReady w op now (addressed endpoint e) =
    if-IsReady (op == report_heartbeat_opcode) _ _ (addressed endpoint e) (
      if-IsReady (op == remote_switch_opcode) _ _ (addressed endpoint e) (
        if-IsReady (op == switch_mode_ack_opcode) _ _ (addressed endpoint e)
          (addressed endpoint e)))
on_opcode-IsReady w op now (idle off none_alive) =
    if-IsReady (op == report_heartbeat_opcode) _ _ (idle off none_alive) (
      if-IsReady (op == remote_switch_opcode) _ _ (idle off none_alive)
        (if-IsReady (op == switch_mode_ack_opcode) _ _ (idle off none_alive) (idle off none_alive)))

packet_received-IsReady :
    (w : Window) (buffer : Option (List ℕ)) (now : ℕ)
    → IsReady w
    → Yields IsReady (packet_received w buffer now)
unfolding packet_received
packet_received-IsReady w none now (addressed endpoint e) = addressed endpoint e
packet_received-IsReady w none now (idle off none_alive) = idle off refl
packet_received-IsReady w (some buffer) now ready =
    Yields-bind Any IsReady (get_packet_opcode buffer (pos (length buffer))) _ (Yields-Any _)
      (λ op _. on_opcode-IsReady w op now ready)

start_connection-IsReady :
    (w : Window) (state : Option Worker) (endpoint : SockAddr)
    → w.robot_packet_endpoint ≡ some endpoint
    → IsReady (start_connection w state)
unfolding start_connection begin_worker
start_connection-IsReady w none endpoint e = addressed endpoint e
start_connection-IsReady w (some state) endpoint e = addressed endpoint e

update_mode-IsReady :
    (w : Window) (mode : Option DriveMode) (endpoint : SockAddr)
    → w.robot_packet_endpoint ≡ some endpoint
    → IsReady (update_mode w mode)
unfolding update_mode
update_mode-IsReady w none endpoint e = addressed endpoint e
update_mode-IsReady w (some mode) endpoint e = start_connection-IsReady _ w.worker endpoint e

connect_to-IsReady :
    (w : Window) (addr : Option SockAddr) (mode : Option DriveMode)
    → IsReady w
    → IsReady (connect_to w addr mode)
unfolding connect_to
connect_to-IsReady w none mode ready = ready
connect_to-IsReady w (some addr) none ready = addressed addr refl
connect_to-IsReady w (some addr) (some mode) ready = start_connection-IsReady _ w.worker addr refl

go_button_clicked-IsReady :
    (w : Window) (addr : Option SockAddr) (mode : Option DriveMode)
    → IsReady w
    → IsReady (go_button_clicked w addr mode)
unfolding go_button_clicked
go_button_clicked-IsReady w addr mode (addressed endpoint e) = elim (Bool-cases w.is_connected) [
  | inl on ↦ simp on (update_mode-IsReady w mode endpoint e)
  | inr off ↦ simp off (connect_to-IsReady w addr mode (addressed endpoint e))
]
go_button_clicked-IsReady w addr mode (idle off none_alive) =
    simp off (connect_to-IsReady w addr mode (idle off none_alive))

close_window-IsReady : (w : Window) → IsReady w → IsReady (close_window w)
unfolding close_window
close_window-IsReady w (addressed endpoint e) = addressed endpoint e
close_window-IsReady w (idle off none_alive) = idle off refl

pub mode_packet_total : (mode : DriveMode) → (bytes : List ℕ) × (mode_packet mode ≡ ok bytes)
unfolding mode_packet
mode_packet_total direct = ([], refl)
mode_packet_total remote = (_, get_remote_switch_packet_lem)
mode_packet_total ai = (_, get_ai_init_packet_lem)

-- A round that ends in a ready window.
EndsReady : Outcome (Window × List Event) → Type 0
EndsReady m = (w : Window) × (events : List Event) × (m ≡ ok (w, events)) × IsReady w

query_heartbeat-EndsReady :
    (w : Window) (last : Option ℕ) (endpoint : SockAddr)
    → w.robot_packet_endpoint ≡ some endpoint
    → EndsReady (query_heartbeat w last)
unfolding query_heartbeat send EndsReady
query_heartbeat-EndsReady w (some received) endpoint e = (_, _, refl, addressed endpoint e)
query_heartbeat-EndsReady w none endpoint e = (
  w,
  udp_write (wire query_heartbeat_opcode) endpoint ∷ [],
  simp (get_query_heartbeat_packet_lem, e) refl,
  addressed endpoint e,
)

set_drive_mode-EndsReady :
    (w : Window) (endpoint : SockAddr)
    → w.robot_packet_endpoint ≡ some endpoint
    → EndsReady (set_drive_mode w)
unfolding set_drive_mode send EndsReady
set_drive_mode-EndsReady w endpoint e =
    let (bytes, made) = mode_packet_total w.current_drive_mode in
    (
      if w.received_drive_mode_ack then record w { is_connected = true; worker = none } else w,
      udp_write bytes endpoint ∷ [],
      simp (made, e) refl,
      if-IsReady w.received_drive_mode_ack _ _ (addressed endpoint e) (addressed endpoint e),
    )

work-EndsReady :
    (w : Window) (state : Worker) (endpoint : SockAddr)
    → w.robot_packet_endpoint ≡ some endpoint
    → EndsReady (work w state)
unfolding work EndsReady
work-EndsReady w state endpoint e = elim (Bool-cases state.query_heartbeat_state) [
  | inl asks ↦ rw asks (query_heartbeat-EndsReady w w.last_heartbeat_received endpoint e)
  | inr asked ↦ elim (Bool-cases state.set_drive_mode_state) [
    | inl sets ↦ rw (asked, sets) (set_drive_mode-EndsReady w endpoint e)
    | inr lost ↦ rw (asked, lost) (record w { worker = none }, [], refl, addressed endpoint e)
  ]
]

worker_round-addressed :
    (w : Window) (thread : Option Worker) (endpoint : SockAddr)
    → w.robot_packet_endpoint ≡ some endpoint
    → EndsReady (worker_round w thread)
unfolding worker_round EndsReady
worker_round-addressed w none endpoint e = (w, [], refl, addressed endpoint e)
worker_round-addressed w (some state) endpoint e = work-EndsReady w state endpoint e

-- A round of the connecting thread in a ready window ends in one.
pub worker_round-IsReady :
    (w : Window)
    → IsReady w
    → (w' : Window) × (events : List Event) × (worker_round w w.worker ≡ ok (w', events))
      × IsReady w'
unfolding worker_round EndsReady
worker_round-IsReady w (addressed endpoint e) = worker_round-addressed w w.worker endpoint e
worker_round-IsReady w (idle off none_alive) = (w, [], simp none_alive refl, idle off none_alive)

pub Reached-IsReady : (w : Window) → Reached w → IsReady w
unfolding construct
Reached-IsReady w opens = idle refl refl
Reached-IsReady w (receives w0 w1 buffer now before e) =
    rw e at (packet_received-IsReady w0 buffer now (Reached-IsReady w0 before))
Reached-IsReady w (works w0 w1 events before e) =
    let (w', sent, e', ready) = worker_round-IsReady w0 (Reached-IsReady w0 before) in
    let same : w' ≡ w = ap (λ (both : Window × List Event). both.0) (ok-injective (sym e' ∙ e)) in
    rw same at ready
Reached-IsReady w (pressed w0 addr mode before) =
    go_button_clicked-IsReady w0 addr mode (Reached-IsReady w0 before)
Reached-IsReady w (closed w0 before) = close_window-IsReady w0 (Reached-IsReady w0 before)
