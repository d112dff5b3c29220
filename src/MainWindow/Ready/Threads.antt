-- ===== src/MainWindow/Ready/Threads.antt =====
-- The threads and the timer of BaseStation/BaseStation/MainWindow.xaml.cs in the states that the
-- window reaches.
use lame.Prelude.{
  ℕ, ◌≡◌, refl, inl, inr, Bool-cases, not, true, ◌||◌, List, [], ◌∷◌, Option, none, some, ok,
}
use lame.Prelude.Int.{ℤ, pos, negsuc}
use lame.Packet.Opcodes.{drive_opcode, query_heartbeat_opcode}
use lame.Packet.Create.Fixed.{wire}
use lame.Packet.Header.Accept.{sent_bytes}
use lame.Packet.Create.Packets.{drive_body}
use lame.Bler.State.{SockAddr}
use lame.Bler.Sending.{Event, udp_write}
use lame.PacketHandler.{Drive, drive_payload}
use lame.PacketHandler.Wire.{get_query_heartbeat_packet_lem}
use lame.PacketHandler.Station.{get_drive_packet_lem}
use lame.MainWindow.State.{Window, send}
use lame.MainWindow.Connect.{worker_round}
use lame.MainWindow.Buttons.{query_heartbeat_event}
use lame.MainWindow.Joystick.{
  Xbox, Pilot, is_remote, speeds_of, send_speeds, enumerate, contains, fly_if_there, pilot_round,
}
use lame.MainWindow.Joystick.Limits.{IsXbox, IsPilot, fly_lem}
use lame.MainWindow.Joystick.Flown.{Flown, Flown-IsPilot}
use lame.MainWindow.Ready.Targets.{
  GoesTo, worker_round-Aimed, pilot_round-Aimed, query_heartbeat_event-GoesTo,
}
use lame.MainWindow.Ready.{IsReady, addressed, idle, Reached, Reached-IsReady, worker_round-IsReady}

send_speeds_total :
    (w : Window) (speeds : Drive)
    → IsReady w
    → (events : List Event) × (send_speeds w speeds ≡ ok events)
unfolding send_speeds send
send_speeds_total w speeds (idle off none_alive) = ([], simp off refl)
send_speeds_total w speeds (addressed endpoint e) =
    elim (Bool-cases (not w.is_connected || not (is_remote w.current_drive_mode))) [
      | inl silent ↦ ([], rw silent refl)
      | inr sends ↦ (
        udp_write (sent_bytes drive_opcode (drive_body (drive_payload speeds))) endpoint ∷ [],
        rw (sends, get_drive_packet_lem speeds) (simp e refl),
      )
    ]

fly_if_there_total :
    (xbox : Xbox) (now : ℕ) (w : Window) (p : Pilot) (js_id : ℤ)
    → IsXbox xbox
    → IsPilot p
    → IsReady w
    → (p' : Pilot) × (events : List Event) × (fly_if_there xbox now w p js_id ≡ ok (p', events))
unfolding fly_if_there
fly_if_there_total xbox now w p (negsuc n) promised inv ready = (_, _, refl)
fly_if_there_total xbox now w p (pos id) promised inv ready =
    elim (Bool-cases (contains xbox.ids id)) [
      | inr gone ↦ (record p { enumerate_js = true }, [], rw gone refl)
      | inl there ↦
          let (flown, within, ends) = fly_lem xbox now w p id promised inv in
          let (events, sent) = send_speeds_total w (speeds_of flown) ready in
          (flown, events, rw (there, ends) (rw sent refl))
    ]

pilot_round_total :
    (xbox : Xbox) (now : ℕ) (w : Window) (p : Pilot)
    → IsXbox xbox
    → IsPilot p
    → IsReady w
    → (p' : Pilot) × (events : List Event) × (pilot_round xbox now w p ≡ ok (p', events))
unfolding pilot_round
pilot_round_total xbox now w p promised inv ready = elim (Bool-cases p.enumerate_js) [
  | inl searching ↦ (enumerate xbox.ids p, [], simp searching refl)
  | inr found ↦
      let (p', events, e) = fly_if_there_total xbox now w p p.js_id promised inv ready in
      (p', events, simp found e)
]

query_heartbeat_event_total :
    (w : Window) (endpoint : Option SockAddr)
    → (events : List Event) × (query_heartbeat_event w endpoint ≡ ok events)
unfolding query_heartbeat_event send
query_heartbeat_event_total w none = ([], refl)
query_heartbeat_event_total w (some endpoint) = elim (Bool-cases w.is_connected) [
  | inl on ↦ (
    udp_write (wire query_heartbeat_opcode) endpoint ∷ [],
    rw (on, get_query_heartbeat_packet_lem) refl,
  )
  | inr off ↦ ([], rw off refl)
]

-- Whatever datagrams, presses, rounds and sliders have brought the window and the joystick thread
-- to where they are: if the joystick library keeps to its ranges, and where a sending that has an
-- endpoint succeeds, the next round of the connecting thread, the next round of the joystick thread,
-- which still has its service, and the timer end; none of them sends where no endpoint is set, and
-- each sends nothing or one datagram, to the endpoint of the window.
pub threads_total :
    (w : Window) (p : Pilot) (xbox : Xbox) (now : ℕ)
    → Reached w
    → Flown p
    → IsXbox xbox
    → ((w' : Window) × (events : List Event) × (worker_round w w.worker ≡ ok (w', events))
        × GoesTo w.robot_packet_endpoint events)
      × ((p' : Pilot) × (events : List Event) × (pilot_round xbox now w p ≡ ok (p', events))
          × GoesTo w.robot_packet_endpoint events)
      × ((events : List Event) × (query_heartbeat_event w w.robot_packet_endpoint ≡ ok events)
          × GoesTo w.robot_packet_endpoint events)
threads_total w p xbox now reached flown promised =
    let ready = Reached-IsReady w reached in
    let (w', asked, worked, _) = worker_round-IsReady w ready in
    let (p', driven, piloted) =
      pilot_round_total xbox now w p promised (Flown-IsPilot p flown) ready in
    let (beats, timed) = query_heartbeat_event_total w w.robot_packet_endpoint in
    (
      (w', asked, worked, rw worked at (worker_round-Aimed w w.worker)),
      (p', driven, piloted, rw piloted at (pilot_round-Aimed xbox now w p)),
      (beats, timed, rw timed at (query_heartbeat_event-GoesTo w w.robot_packet_endpoint)),
    )
