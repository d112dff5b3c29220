-- ===== src/MainWindow/Network.antt =====
-- The window of BaseStation/BaseStation/MainWindow.xaml.cs and the robot of Robot/src/BLER.cpp over
-- a network that loses, delays, reorders and repeats datagrams. Nobody else sends any.
pub mod Lists
pub mod Ranged
pub mod Ours
pub mod Knows
pub mod Sent
pub mod Honest
pub mod Safety
pub mod Rounds
pub mod Along
pub mod Stale
use mathlib.Core.List.{Memᴰ}
use lame.Prelude.{
  ℕ, ◌≡◌, true, List, [], ◌∷◌, ◌++◌, Option, none, some, Outcome, ok, if◌then◌else◌, replicate,
}
use lame.Prelude.Int.{ℤ}
use lame.Bler.State.{Sockets, SockAddr, Bler}
use lame.Bler.Sending.{Event, serial_write, udp_write, tcp_write}
use lame.Bler.Camera.{camera_read_round}
use lame.Bler.Udp.{Surroundings, datagram, Round, udp_round}
use lame.MainWindow.State.{DriveMode, Window, construct}
use lame.MainWindow.Receive.{packet_received}
use lame.MainWindow.Connect.{worker_round}
use lame.MainWindow.Buttons.{
  go_button_clicked, close_window, request_image_clicked, request_image1_clicked,
  quality_value_changed, camera_location_value_changed, query_heartbeat_event,
}
use lame.MainWindow.Joystick.{Xbox, Pilot, pilot_round}
use lame.MainWindow.Joystick.Limits.{IsXbox}
use lame.MainWindow.Joystick.Flown.{Flown}
use lame.MainWindow.Exchange.{same_addr}

-- The two programs, the robot's receive array, and the datagrams that were sent to the robot and to
-- the window.
pub record Net (Frame : Type 0) : Type 0 where
  pub window : Window
  pub robot : Bler Frame
  pub read_buffer : List ℕ
  pub to_robot : List (List ℕ)
  pub to_window : List (List ℕ)

-- The datagrams among the events that go to an address.
pub sent_to : SockAddr → List Event → List (List ℕ)
sent_to there [] = []
sent_to there (serial_write bytes ∷ events) = sent_to there events
sent_to there (tcp_write bytes addr ∷ events) = sent_to there events
sent_to there (udp_write bytes addr ∷ events) =
    let rest = sent_to there events in if same_addr addr there then bytes ∷ rest else rest

-- The events of the user interface that only send.
pub data Input : Type 0 where
  timer image_button image1_button : Input
  quality_slider location_slider : ℤ → Input

pub on_input : Window → Input → Outcome (List Event)
on_input w timer = query_heartbeat_event w w.robot_packet_endpoint
on_input w image_button = request_image_clicked w
on_input w image1_button = request_image1_clicked w
on_input w (quality_slider value) = quality_value_changed w value
on_input w (location_slider value) = camera_location_value_changed w value

-- Before anything is sent.
abbrev pub begin : {Frame : Type 0} → Bler Frame → Net Frame
begin r = record {
  window = construct;
  robot = r;
  read_buffer = replicate 64 0;
  to_robot = [];
  to_window = [];
}

module _ {Frame : Type 0} (imencode : Frame → ℕ → Option (List ℕ)) (sys : Sockets)
    (station robot_addr : SockAddr) where
  -- What is sent stays in the network, so it can arrive late, twice or never.
  abbrev pub after_sending : Net Frame → Window → List Event → Net Frame
  after_sending s w events = record s {
    window = w;
    to_robot = sent_to robot_addr events ++ s.to_robot;
  }

  pub data Move (s : Net Frame) : Net Frame → Type 0 where
    works :
        (w : Window) (events : List Event)
        → worker_round s.window s.window.worker ≡ ok (w, events)
        → Move s (after_sending s w events)
    -- In whatever state the joystick thread can be.
    flies :
        (xbox : Xbox) (now : ℕ) (p p' : Pilot) (events : List Event)
        → IsXbox xbox
        → Flown p
        → pilot_round xbox now s.window p ≡ ok (p', events)
        → Move s (after_sending s s.window events)
    asks :
        (input : Input) (events : List Event)
        → on_input s.window input ≡ ok events
        → Move s (after_sending s s.window events)
    presses :
        (addr : Option SockAddr) (mode : Option DriveMode)
        → Move s (record s { window = go_button_clicked s.window addr mode })
    closes : Move s (record s { window = close_window s.window })
    breaks :
        (w : Window) (now : ℕ)
        → s.window.receiving ≡ true
        → packet_received s.window none now ≡ ok w
        → Move s (record s { window = w })
    answers :
        (w : Window) (now : ℕ) (bytes : List ℕ)
        → Memᴰ bytes s.to_window
        → s.window.receiving ≡ true
        → packet_received s.window (some bytes) now ≡ ok w
        → Move s (record s { window = w })
    arrives :
        (env : Surroundings) (bytes : List ℕ) (after : Round Frame)
        → Memᴰ bytes s.to_robot
        → udp_round imencode sys s.robot s.read_buffer env (datagram bytes station) ≡ ok after
        → Move s (record s {
          robot = after.robot;
          read_buffer = after.read_buffer;
          to_window = sent_to station after.events ++ s.to_window;
        })
    films :
        (img img1 : Option Frame) → Move s (record s { robot = camera_read_round s.robot img img1 })

  -- All that can happen from the start.
  pub data Reach (s : Net Frame) : Net Frame → Type 0 where
    here : Reach s s
    next : {t u : Net Frame} → Reach s t → Move t u → Reach s u
