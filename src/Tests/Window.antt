-- ===== src/Tests/Window.antt =====
-- The base station's window, its images and its joystick at concrete inputs.
use lame.Prelude.{
  ℕ, ◌≡◌, ◌≢◌, refl, true, false, List, [], ◌∷◌, none, Option, none, some, arith, ok,
}
use lame.Prelude.Int.{pos, negsuc, signed8}
use lame.Bler.State.{SockAddr, direct as in_direct, remote as in_remote}
use lame.Bler.Sending.{Event, udp_write}
use lame.Bler.Udp.{is_from_ai, datagram, Round, udp_round}
use lame.Bler.Camera.{send_camera_image}
use lame.MainWindow.State.{remote, ai, Worker, Window, construct}
use lame.MainWindow.Buttons.{go_button_clicked, query_heartbeat_event}
use lame.MainWindow.Receive.{packet_received}
use lame.MainWindow.Exchange.Steps.{querying}
use lame.MainWindow.Exchange.Deaf.{exchanges-deaf}
use lame.MainWindow.Connect.{worker_round}
use lame.MainWindow.Ready.{opens, pressed}
use lame.MainWindow.Ready.Targets.{GoesTo}
use lame.MainWindow.Ready.Threads.{threads_total}
use lame.MainWindow.Exchange.{Pair, exchanges}
use lame.MainWindow.Exchange.Handshake.{exchanges-connected}
use lame.MainWindow.Exchange.Refusal.{exchanges-refused}
use lame.MainWindow.Image.{receive_image}
use lame.MainWindow.Image.Whole.{stream_of, receive_image-send_camera_image}
use lame.MainWindow.Joystick.{
  Xbox, Pilot, begin_pilot, clamp, neg_int, deadzone, actuator_speed, may_toggle, next_scooper,
  toggle_scooper, toggle_vibrator, scale, divide, read_controls, scale_stick, send_speeds, fly,
  enumerate, contains, fly_if_there, pilot_round, apply_sliders,
}
use lame.MainWindow.Joystick.Limits.{IsXbox, IsPilot}
use lame.MainWindow.Joystick.Flown.{begins, flies, slides, Flown-IsPilot}
use lame.MainWindow.Joystick.Driven.{pilot_round-udp_round}
use lame.Tests.Samples.{linux, compress, station, robot_in, zeroed, around}

abbrev robot_addr : SockAddr
robot_addr = record { sin_family = 2; s_addr = 0x201a8c0; sin_port = 0x1027 }

exchanges-connected_example :
    (last : Pair ℕ) × (exchanges compress linux station
        (record {
          window = go_button_clicked construct (some robot_addr) (some remote);
          robot = robot_in in_direct;
          read_buffer = zeroed;
        })
        (around ∷ around ∷ around ∷ around ∷ [])
      ≡ ok last)
    × (last.window.is_connected ≡ true)
    × (last.window.worker ≡ none)
    × (last.window.current_drive_mode ≡ remote)
    × (last.robot.current_mode ≡ in_remote)
    × (last.robot.base_station_addr ≡ station)
unfolding construct is_from_ai
exchanges-connected_example =
    exchanges-connected compress linux station robot_addr construct (robot_in in_direct) zeroed
      around around around around refl refl refl refl

ai≢remote : ai ≢ remote
ai≢remote e = absurd (cc e)

exchanges-refused_example :
    (last : Pair ℕ) × (state : Worker) × (exchanges compress linux station
        (record {
          window = go_button_clicked construct (some robot_addr) (some ai);
          robot = robot_in in_direct;
          read_buffer = zeroed;
        })
        (around ∷ around ∷ around ∷ around ∷ around ∷ [])
      ≡ ok last)
    × (last.window.is_connected ≡ false)
    × (last.window.worker ≡ some state)
    × (last.robot.current_mode ≡ in_direct)
unfolding construct
exchanges-refused_example =
    exchanges-refused compress linux station robot_addr ai construct (robot_in in_direct) zeroed
      (around ∷ around ∷ around ∷ around ∷ around ∷ []) ai≢remote refl refl refl

exchanges-deaf_example :
    (deaf : Window) × (last : Pair ℕ) × (packet_received construct none 900 ≡ ok deaf)
    × (exchanges compress linux station
          (record {
            window = go_button_clicked deaf (some robot_addr) (some remote);
            robot = robot_in in_remote;
            read_buffer = zeroed;
          })
          (around ∷ around ∷ around ∷ around ∷ [])
        ≡ ok last)
    × (last.window.is_connected ≡ false)
    × (last.window.last_heartbeat_received ≡ none)
    × (last.window.worker ≡ some querying)
unfolding construct
exchanges-deaf_example =
    exchanges-deaf compress linux station robot_addr remote construct (robot_in in_remote) zeroed
      900 (around ∷ around ∷ around ∷ around ∷ []) refl

abbrev picture : List ℕ
picture = 255 ∷ 216 ∷ 255 ∷ 224 ∷ 1 ∷ 2 ∷ 3 ∷ 4 ∷ 5 ∷ 6 ∷ 7 ∷ 8 ∷ []

abbrev to_picture : ℕ → ℕ → Option (List ℕ)
to_picture img quality = some picture

-- Three bytes of the image had arrived with the header.
receive_image-send_camera_image_example :
    receive_image 13 9
      (λ k. k)
      (stream_of (send_camera_image to_picture linux (robot_in in_remote) 0 around.link))
    ≡ ok (record { img_id = 0; bytes = 224 ∷ 1 ∷ 2 ∷ 3 ∷ 4 ∷ 5 ∷ 6 ∷ 7 ∷ 8 ∷ [] })
receive_image-send_camera_image_example =
    receive_image-send_camera_image to_picture linux (robot_in in_remote) around.link 0 7 picture 13
      9 (λ k. k) refl refl refl (omega arith) (omega arith) (omega arith) (omega arith)

-- One pad, whose sticks are apart, and which holds A and the left trigger.
abbrev pad : Xbox
pad = record {
  ids = 4 ∷ [];
  get_left_y = λ id y. negsuc 79;
  get_right_y = λ id y. pos 10;
  get_left_trigger = λ id y. pos 60;
  get_right_trigger = λ id y. pos 0;
  a_pressed = λ id. true;
  x_pressed = λ id. false;
  is_north = λ id. true;
  is_south = λ id. false;
}

pad-IsXbox : IsXbox pad
pad-IsXbox = record {
  left_y = λ id y small. omega arith;
  right_y = λ id y small. omega arith;
  left_trigger = λ id y small. omega arith;
  right_trigger = λ id y small. omega arith;
}

abbrev window : Window
window = record construct {
  current_drive_mode = remote;
  robot_packet_endpoint = some robot_addr;
  is_connected = true;
}

-- The pilot after the pad is found, and after a round with it.
abbrev holding : Pilot
holding = record {
  js_id = pos 4;
  left_y = pos 0;
  right_y = pos 0;
  left_trigger = pos 0;
  right_trigger = pos 0;
  enumerate_js = false;
  scooper_speed = 0;
  vibrator_speed = 0;
  speed_divisor = 2;
  last_scooper_toggle = 0;
  last_vibrator_toggle = 0;
}

abbrev turning : Pilot
turning = record holding {
  left_y = negsuc 25;
  right_y = pos 0;
  left_trigger = pos 60;
  scooper_speed = 10;
  speed_divisor = 3;
  last_scooper_toggle = 500;
}

Flown-IsPilot_example : IsPilot (apply_sliders (pos 50) (negsuc 0) turning)
unfolding construct pilot_round begin_pilot enumerate fly_if_there contains fly scale_stick deadzone
    read_controls toggle_vibrator toggle_scooper may_toggle next_scooper divide neg_int scale clamp
    send_speeds
Flown-IsPilot_example = Flown-IsPilot (apply_sliders (pos 50) (negsuc 0) turning) (
    slides (pos 50) (negsuc 0) turning (omega arith) (omega arith) (
      flies pad 500 construct holding turning [] pad-IsXbox
        (flies pad 100 construct (begin_pilot 0) holding [] pad-IsXbox (begins 0) refl) refl))

holding-IsPilot : IsPilot holding
holding-IsPilot = record {
  left_y = omega arith;
  right_y = omega arith;
  left_trigger = omega arith;
  right_trigger = omega arith;
  scooper = omega arith;
  vibrator = omega arith;
  divisor_low = omega arith;
  divisor_high = omega arith;
}

-- After the button, and with the pad found.
threads_total_example :
    let w = go_button_clicked construct (some robot_addr) (some remote) in
    ((w' : Window) × (events : List Event) × (worker_round w w.worker ≡ ok (w', events))
      × GoesTo w.robot_packet_endpoint events)
    × ((p' : Pilot) × (events : List Event) × (pilot_round pad 500 w holding ≡ ok (p', events))
        × GoesTo w.robot_packet_endpoint events)
    × ((events : List Event) × (query_heartbeat_event w w.robot_packet_endpoint ≡ ok events)
        × GoesTo w.robot_packet_endpoint events)
unfolding pilot_round begin_pilot enumerate
threads_total_example =
    threads_total (go_button_clicked construct (some robot_addr) (some remote)) holding pad 500
      (pressed construct (some robot_addr) (some remote) opens)
      (flies pad 100 construct (begin_pilot 0) holding [] pad-IsXbox (begins 0) refl) pad-IsXbox

pilot_round-udp_round_example :
    (flown : Pilot) × (packet : List ℕ) × (after : Round ℕ) × (pilot_round pad 500 window holding
      ≡ ok (flown, udp_write packet robot_addr ∷ []))
    × IsPilot flown
    × (udp_round compress linux (robot_in in_remote) zeroed around (datagram packet station)
        ≡ ok after)
    × (signed8 after.robot.latest_drive_payload.left ≡ flown.left_y)
    × (signed8 after.robot.latest_drive_payload.right ≡ flown.right_y)
    × (signed8 after.robot.latest_drive_payload.actuator
        ≡ actuator_speed flown.left_trigger flown.right_trigger)
    × (after.robot.latest_drive_payload.scooper ≡ flown.scooper_speed)
    × (after.robot.latest_drive_payload.vibrator ≡ flown.vibrator_speed)
    × (after.robot.last_drive_payload_received_time ≡ 1010)
unfolding contains
pilot_round-udp_round_example =
    pilot_round-udp_round compress linux (robot_in in_remote) zeroed station robot_addr around pad
      500 4 window holding pad-IsXbox holding-IsPilot refl refl refl refl refl refl
