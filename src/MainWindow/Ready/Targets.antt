-- ===== src/MainWindow/Ready/Targets.antt =====
-- Where the threads and the timer of BaseStation/BaseStation/MainWindow.xaml.cs send to.
use lame.Prelude.{ℕ, ◌≡◌, refl, not, ◌||◌, List, [], ◌∷◌, Option, none, some, Outcome, ok, ◌>>=◌}
use lame.Prelude.Int.{ℤ, pos, negsuc}
use lame.Prelude.Yields.{Yields, Yields-bind, Yields-if, Any, Yields-Any}
use lame.Bler.State.{SockAddr}
use lame.Bler.Sending.{Event, udp_write}
use lame.PacketHandler.{Drive, get_query_heartbeat_packet, get_drive_packet}
use lame.MainWindow.State.{Window, Worker, send}
use lame.MainWindow.Connect.{mode_packet, query_heartbeat, set_drive_mode, work, worker_round}
use lame.MainWindow.Buttons.{query_heartbeat_event}
use lame.MainWindow.Joystick.{
  Xbox, Pilot, is_remote, read_controls, scale_stick, speeds_of, send_speeds, fly, contains,
  fly_if_there, pilot_round,
}

-- Nothing is sent, or one datagram, to the endpoint, which is set.
pub data GoesTo (endpoint : Option SockAddr) (events : List Event) : Type 0 where
  nothing : events ≡ [] → GoesTo endpoint events
  one :
      (bytes : List ℕ) (addr : SockAddr)
      → endpoint ≡ some addr
      → events ≡ udp_write bytes addr ∷ []
      → GoesTo endpoint events

-- A result with what is sent.
abbrev pub Aimed : {A : Type 0} → Option SockAddr → A × List Event → Type 0
Aimed endpoint x = GoesTo endpoint x.1

send-GoesTo :
    (buffer : List ℕ) (endpoint : Option SockAddr) → Yields (GoesTo endpoint) (send buffer endpoint)
unfolding send
send-GoesTo buffer none = tt
send-GoesTo buffer (some addr) = one buffer addr refl refl

made-GoesTo :
    (made : Outcome (List ℕ)) (endpoint : Option SockAddr)
    → Yields (GoesTo endpoint) (made >>= λ buffer. send buffer endpoint)
made-GoesTo made endpoint =
    Yields-bind Any (GoesTo endpoint) made _ (Yields-Any made)
      (λ buffer _. send-GoesTo buffer endpoint)

made-Aimed :
    {A : Type 0} (made : Outcome (List ℕ)) (endpoint : Option SockAddr) (a : A)
    → Yields (Aimed endpoint) (made >>= λ buffer. send buffer endpoint >>= λ sent. ok (a, sent))
made-Aimed made endpoint a = Yields-bind Any (Aimed endpoint) made _ (Yields-Any made) (λ buffer _.
    Yields-bind (GoesTo endpoint) (Aimed endpoint) (send buffer endpoint) _
      (send-GoesTo buffer endpoint) (λ sent goes. goes))

query_heartbeat-Aimed :
    (w : Window) (last : Option ℕ) → Yields (Aimed w.robot_packet_endpoint) (query_heartbeat w last)
unfolding query_heartbeat
query_heartbeat-Aimed w none = made-Aimed get_query_heartbeat_packet w.robot_packet_endpoint w
query_heartbeat-Aimed w (some received) = nothing refl

pub worker_round-Aimed :
    (w : Window) (worker : Option Worker)
    → Yields (Aimed w.robot_packet_endpoint) (worker_round w worker)
unfolding worker_round work set_drive_mode
worker_round-Aimed w none = nothing refl
worker_round-Aimed w (some state) =
    let endpoint = w.robot_packet_endpoint in
    Yields-if (Aimed endpoint) state.query_heartbeat_state _ _
      (query_heartbeat-Aimed w w.last_heartbeat_received)
      (Yields-if (Aimed endpoint) state.set_drive_mode_state _ _
        (made-Aimed (mode_packet w.current_drive_mode) endpoint _) (nothing refl))

send_speeds-GoesTo :
    (w : Window) (speeds : Drive) → Yields (GoesTo w.robot_packet_endpoint) (send_speeds w speeds)
unfolding send_speeds
send_speeds-GoesTo w speeds =
    Yields-if (GoesTo w.robot_packet_endpoint)
      (not w.is_connected || not (is_remote w.current_drive_mode)) _ _ (nothing refl)
      (made-GoesTo (get_drive_packet speeds) w.robot_packet_endpoint)

flown-Aimed :
    (w : Window) (flown : Pilot)
    → Yields
        (Aimed w.robot_packet_endpoint)
        (send_speeds w (speeds_of flown) >>= λ events. ok (flown, events))
flown-Aimed w flown =
    let endpoint = w.robot_packet_endpoint in
    Yields-bind (GoesTo endpoint) (Aimed {A = Pilot} endpoint) (send_speeds w (speeds_of flown))
      (λ events. ok (flown, events)) (send_speeds-GoesTo w (speeds_of flown)) (λ events goes. goes)

-- Whatever comes first.
after-Aimed :
    {B : Type 0} (endpoint : Option SockAddr) (m : Outcome ℤ) (k : ℤ → Outcome (B × List Event))
    → ((a : ℤ) → Yields (Aimed endpoint) (k a))
    → Yields (Aimed endpoint) (m >>= k)
after-Aimed {B} endpoint m k aimed =
    Yields-bind Any (Aimed {A = B} endpoint) m k (Yields-Any m) (λ a _. aimed a)

fly-Aimed :
    (xbox : Xbox) (now : ℕ) (w : Window) (p : Pilot) (id : ℕ)
    → Yields (Aimed w.robot_packet_endpoint) (fly xbox now w p id)
unfolding fly
fly-Aimed xbox now w p id =
    let read = read_controls xbox now p id in
    after-Aimed w.robot_packet_endpoint (scale_stick read.right_y read.speed_divisor) _ (λ right.
      after-Aimed w.robot_packet_endpoint (scale_stick read.left_y read.speed_divisor) _
        (λ left. flown-Aimed w (record read { left_y = left; right_y = right })))

fly_if_there-Aimed :
    (xbox : Xbox) (now : ℕ) (w : Window) (p : Pilot) (js_id : ℤ)
    → Yields (Aimed w.robot_packet_endpoint) (fly_if_there xbox now w p js_id)
unfolding fly_if_there
fly_if_there-Aimed xbox now w p (negsuc n) = nothing refl
fly_if_there-Aimed xbox now w p (pos id) =
    Yields-if (Aimed w.robot_packet_endpoint) (contains xbox.ids id) _ _ (fly-Aimed xbox now w p id)
      (nothing refl)

pub pilot_round-Aimed :
    (xbox : Xbox) (now : ℕ) (w : Window) (p : Pilot)
    → Yields (Aimed w.robot_packet_endpoint) (pilot_round xbox now w p)
unfolding pilot_round
pilot_round-Aimed xbox now w p =
    Yields-if (Aimed w.robot_packet_endpoint) p.enumerate_js _ _ (nothing refl)
      (fly_if_there-Aimed xbox now w p p.js_id)

pub query_heartbeat_event-GoesTo :
    (w : Window) (endpoint : Option SockAddr)
    → Yields (GoesTo endpoint) (query_heartbeat_event w endpoint)
unfolding query_heartbeat_event
query_heartbeat_event-GoesTo w none = nothing refl
query_heartbeat_event-GoesTo w (some addr) =
    Yields-if (GoesTo (some addr)) w.is_connected _ _
      (made-GoesTo get_query_heartbeat_packet (some addr)) (nothing refl)
