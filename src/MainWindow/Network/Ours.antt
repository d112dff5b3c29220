-- ===== src/MainWindow/Network/Ours.antt =====
-- The packets that the window of BaseStation/BaseStation/MainWindow.xaml.cs can send.
use lame.Prelude.{
  ◌==◌, ℕ, ◌<◌, ◌≡◌, ◌≢◌, refl, not, ◌||◌, false, List, [], ◌∷◌, Option, none, some, length, All,
  arith, Outcome, ◌>>=◌,
}
use lame.Prelude.Yields.{Yields, Yields-bind, Yields-if}
use lame.Prelude.Int.{ℤ, pos, negsuc}
use lame.Packet.Opcodes.{drive_opcode, direct_switch_opcode, ai_switch_opcode}
use lame.Packet.Header.Accept.{sent_bytes}
use lame.Packet.Create.Fixed.{wire}
use lame.Bler.State.{SockAddr}
use lame.Bler.Sending.{Event, serial_write, udp_write, tcp_write}
use lame.PacketHandler.{drive_payload, get_drive_packet}
use lame.PacketHandler.Wire.{
  get_query_heartbeat_packet_lem, get_remote_switch_packet_lem, get_ai_init_packet_lem,
  get_query_camera_image_packet_lem, get_query_camera1_image_packet_lem,
}
use lame.PacketHandler.Station.{
  get_drive_packet_lem, get_set_camera_quality_packet_lem, get_set_camera_location_packet_lem,
}
use lame.MainWindow.State.{DriveMode, direct, remote, ai, Worker, Window, send}
use lame.MainWindow.Connect.{mode_packet, query_heartbeat, set_drive_mode, work, worker_round}
use lame.MainWindow.Buttons.{
  if_connected, request_image_clicked, request_image1_clicked, quality_value_changed,
  camera_location_value_changed, query_heartbeat_event,
}
use lame.MainWindow.Joystick.{
  Xbox, Pilot, is_remote, speeds_of, send_speeds, contains, fly, fly_if_there, pilot_round,
}
use lame.Packet.Payloads.{DrivePayload}
use lame.Bler.Execute.Drive.{drive_bytes}
use lame.MainWindow.Joystick.Limits.{IsXbox, IsPilot, fly_lem}
use lame.MainWindow.Network.Ranged.{InRange, speeds_of-InRange}
use lame.MainWindow.Network.{
  Input, timer, image_button, image1_button, quality_slider, location_slider, on_input,
}

-- An empty datagram, a drive packet within the range, or another whole packet whose opcode is
-- neither the AI switch nor the direct switch.
pub data IsOurs (bytes : List ℕ) : Type 0 where
  nothing : bytes ≡ [] → IsOurs bytes
  driving : (p : DrivePayload) → bytes ≡ drive_bytes p → InRange p → IsOurs bytes
  packet :
      (op : ℕ) (body : List ℕ)
      → bytes ≡ sent_bytes op body
      → length body < 57
      → op ≢ ai_switch_opcode
      → op ≢ direct_switch_opcode
      → op ≢ drive_opcode
      → IsOurs bytes

abbrev pub EventOurs : Event → Type 0
EventOurs (serial_write bytes) = Unit
EventOurs (udp_write bytes addr) = IsOurs bytes
EventOurs (tcp_write bytes addr) = Unit

apart : (a b : ℕ) → (a == b) ≡ false → a ≢ b
apart a b differ e = absurd (ground (arith, e))

sent-IsOurs :
    (op : ℕ) (body : List ℕ)
    → length body < 57
    → (op == ai_switch_opcode) ≡ false
    → (op == direct_switch_opcode) ≡ false
    → (op == drive_opcode) ≡ false
    → IsOurs (sent_bytes op body)
sent-IsOurs op body short a d v =
    packet op body refl short (apart _ _ a) (apart _ _ d) (apart _ _ v)

wire-IsOurs :
    (op : ℕ)
    → (op == ai_switch_opcode) ≡ false
    → (op == direct_switch_opcode) ≡ false
    → (op == drive_opcode) ≡ false
    → IsOurs (wire op)
wire-IsOurs op a d v = sent-IsOurs op (0 ∷ []) (omega arith) a d v

-- A step and what it sends.
abbrev pub SendsOurs : {A : Type 0} → A × List Event → Type 0
SendsOurs x = All EventOurs x.1

send-Ours :
    (bytes : List ℕ) (endpoint : Option SockAddr)
    → IsOurs bytes
    → Yields (All EventOurs) (send bytes endpoint)
unfolding send
send-Ours bytes none ours = tt
send-Ours bytes (some endpoint) ours = (ours, tt)

mode_packet-Ours : (mode : DriveMode) → Yields IsOurs (mode_packet mode)
unfolding mode_packet
mode_packet-Ours direct = nothing refl
mode_packet-Ours remote = rw get_remote_switch_packet_lem (wire-IsOurs _ refl refl refl)
mode_packet-Ours ai = rw get_ai_init_packet_lem (wire-IsOurs _ refl refl refl)

-- Making a packet and sending it.
packet-Ours :
    (made : Outcome (List ℕ)) (endpoint : Option SockAddr)
    → Yields IsOurs made
    → Yields (All EventOurs) (made >>= λ buffer. send buffer endpoint)
packet-Ours made endpoint ours =
    Yields-bind IsOurs (All EventOurs) made _ ours (λ bytes ours'. send-Ours bytes endpoint ours')

query_heartbeat-Ours : (w : Window) (last : Option ℕ) → Yields SendsOurs (query_heartbeat w last)
unfolding query_heartbeat
query_heartbeat-Ours w (some received) = tt
query_heartbeat-Ours w none = rw get_query_heartbeat_packet_lem (
    Yields-bind (All EventOurs) SendsOurs (send (wire _) w.robot_packet_endpoint) _
      (send-Ours _ w.robot_packet_endpoint (wire-IsOurs _ refl refl refl)) (λ sent ours. ours))

set_drive_mode-Ours : (w : Window) → Yields SendsOurs (set_drive_mode w)
unfolding set_drive_mode
set_drive_mode-Ours w =
    Yields-bind IsOurs SendsOurs (mode_packet w.current_drive_mode) _
      (mode_packet-Ours w.current_drive_mode)
      (λ bytes ours.
        Yields-bind (All EventOurs) SendsOurs (send bytes w.robot_packet_endpoint) _
          (send-Ours bytes w.robot_packet_endpoint ours) (λ sent ours'. ours'))

pub worker_round-Ours :
    (w : Window) (thread : Option Worker) → Yields SendsOurs (worker_round w thread)
unfolding worker_round work
worker_round-Ours w none = tt
worker_round-Ours w (some state) =
    Yields-if SendsOurs state.query_heartbeat_state _ _
      (query_heartbeat-Ours w w.last_heartbeat_received)
      (Yields-if SendsOurs state.set_drive_mode_state _ _ (set_drive_mode-Ours w) tt)

send_speeds-Ours :
    (w : Window) (flown : Pilot)
    → IsPilot flown
    → Yields (All EventOurs) (send_speeds w (speeds_of flown))
unfolding send_speeds
send_speeds-Ours w flown within =
    Yields-if (All EventOurs) (not w.is_connected || not (is_remote w.current_drive_mode)) _ _ tt (
      packet-Ours (get_drive_packet (speeds_of flown)) w.robot_packet_endpoint (
        rw (get_drive_packet_lem (speeds_of flown))
          (driving (drive_payload (speeds_of flown)) refl (speeds_of-InRange flown within))))

fly-Ours :
    (xbox : Xbox) (now : ℕ) (w : Window) (p : Pilot) (id : ℕ)
    → IsXbox xbox
    → IsPilot p
    → Yields SendsOurs (fly xbox now w p id)
fly-Ours xbox now w p id promised inv =
    let (flown, within, ends) = fly_lem xbox now w p id promised inv in
    rw ends (
      Yields-bind (All EventOurs) SendsOurs (send_speeds w (speeds_of flown)) _
        (send_speeds-Ours w flown within) (λ events ours. ours))

fly_if_there-Ours :
    (xbox : Xbox) (now : ℕ) (w : Window) (p : Pilot) (js_id : ℤ)
    → IsXbox xbox
    → IsPilot p
    → Yields SendsOurs (fly_if_there xbox now w p js_id)
unfolding fly_if_there
fly_if_there-Ours xbox now w p (negsuc n) promised inv = tt
fly_if_there-Ours xbox now w p (pos id) promised inv =
    Yields-if SendsOurs (contains xbox.ids id) _ _ (fly-Ours xbox now w p id promised inv) tt

pub pilot_round-Ours :
    (xbox : Xbox) (now : ℕ) (w : Window) (p : Pilot)
    → IsXbox xbox
    → IsPilot p
    → Yields SendsOurs (pilot_round xbox now w p)
unfolding pilot_round
pilot_round-Ours xbox now w p promised inv =
    Yields-if SendsOurs p.enumerate_js _ _ tt (fly_if_there-Ours xbox now w p p.js_id promised inv)

if_connected-Ours :
    (w : Window) (made : Outcome (List ℕ))
    → Yields IsOurs made
    → Yields (All EventOurs) (if_connected w made)
unfolding if_connected
if_connected-Ours w made ours =
    Yields-if (All EventOurs) w.is_connected _ _ (packet-Ours made w.robot_packet_endpoint ours) tt

query_heartbeat_event-Ours :
    (w : Window) (endpoint : Option SockAddr)
    → Yields (All EventOurs) (query_heartbeat_event w endpoint)
unfolding query_heartbeat_event
query_heartbeat_event-Ours w none = tt
query_heartbeat_event-Ours w (some endpoint) =
    Yields-if (All EventOurs) w.is_connected _ _
      (packet-Ours _ (some endpoint)
        (rw get_query_heartbeat_packet_lem (wire-IsOurs _ refl refl refl)))
      tt

pub on_input-Ours : (w : Window) (input : Input) → Yields (All EventOurs) (on_input w input)
unfolding on_input request_image_clicked request_image1_clicked quality_value_changed
    camera_location_value_changed
on_input-Ours w timer = query_heartbeat_event-Ours w w.robot_packet_endpoint
on_input-Ours w image_button =
    if_connected-Ours w _ (rw get_query_camera_image_packet_lem (wire-IsOurs _ refl refl refl))
on_input-Ours w image1_button =
    if_connected-Ours w _ (rw get_query_camera1_image_packet_lem (wire-IsOurs _ refl refl refl))
on_input-Ours w (quality_slider value) = if_connected-Ours w _ (
    rw (get_set_camera_quality_packet_lem _)
      (sent-IsOurs _ (1 ∷ _ ∷ []) (omega arith) refl refl refl))
on_input-Ours w (location_slider value) = if_connected-Ours w _ (
    rw (get_set_camera_location_packet_lem _)
      (sent-IsOurs _ (2 ∷ _ ∷ _ ∷ []) (omega arith) refl refl refl))
