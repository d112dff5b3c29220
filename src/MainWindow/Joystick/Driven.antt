-- ===== src/MainWindow/Joystick/Driven.antt =====
-- A round of `ReadJoystickValues` of BaseStation/BaseStation/MainWindow.xaml.cs, and the robot of
-- Robot/src/BLER.cpp that its packet arrives at.
use lame.Prelude.{
  ℕ, zero, suc, ◌≤◌, ◌≡◌, refl, ap, ◌∙◌, true, false, List, [], ◌∷◌, Option, some, arith, ok,
  Outcome, ◌>>=◌,
}
use lame.Prelude.Int.{ℤ, pos, negsuc, signed8, signed8-to_byte, to_byte}
use lame.Packet.Opcodes.{drive_opcode}
use lame.Packet.Header.Accept.{sent_bytes}
use lame.Packet.Create.Packets.{drive_body}
use lame.Bler.State.{Sockets, SockAddr, Bler}
use lame.Bler.Sending.{Event, udp_write}
use lame.Bler.Udp.{Surroundings, datagram, Round, udp_round}
use lame.Bler.Udp.Deliver.{udp_round-drive}
use lame.PacketHandler.{Drive, drive_payload, get_drive_packet}
use lame.PacketHandler.Station.{get_drive_packet_lem}
use lame.MainWindow.State.{remote, Window, send}
use lame.MainWindow.Joystick.{
  Xbox, Pilot, magnitude, neg_int, actuator_speed, contains, speeds_of, is_remote, send_speeds, fly,
  fly_if_there, pilot_round,
}
use lame.MainWindow.Joystick.Limits.{IsXbox, IsPilot, fly_lem}

pub signed8-small : (a : ℤ) → magnitude a ≤ 100 → signed8 (to_byte a) ≡ a
signed8-small (pos n) small = signed8-to_byte (pos n) (omega arith) (omega arith)
signed8-small (negsuc n) small = signed8-to_byte (negsuc n) (omega arith) (omega arith)

pub actuator_speed-small :
    (l r : ℤ) → magnitude l ≤ 100 → magnitude r ≤ 100 → magnitude (actuator_speed l r) ≤ 100
unfolding actuator_speed neg_int
actuator_speed-small (pos zero) r l_small r_small = ground arith
actuator_speed-small (pos (suc n)) r l_small r_small = ground arith
actuator_speed-small (negsuc n) r l_small r_small = ground arith

pilot_round-flies :
    (xbox : Xbox) (now id : ℕ) (w : Window) (p : Pilot)
    → p.enumerate_js ≡ false
    → p.js_id ≡ pos id
    → contains xbox.ids id ≡ true
    → pilot_round xbox now w p ≡ fly xbox now w p id
unfolding pilot_round fly_if_there
pilot_round-flies xbox now id w p found js there = simp (found, js, there) refl

send_speeds-connected :
    (w : Window) (speeds : Drive) (packet : List ℕ) (robot_addr : SockAddr)
    → get_drive_packet speeds ≡ ok packet
    → w.is_connected ≡ true
    → w.current_drive_mode ≡ remote
    → w.robot_packet_endpoint ≡ some robot_addr
    → send_speeds w speeds ≡ ok (udp_write packet robot_addr ∷ [])
unfolding send_speeds is_remote send
send_speeds-connected w speeds packet robot_addr made on mode peer =
    simp (on, mode, made, peer) refl

-- While the window is connected and in remote mode, and the joystick that was found is there, a
-- round within the limits sends one packet to the robot's address and stays within them. When it
-- arrives, the robot has the speeds that the round left: wheels and actuator with their signs,
-- scooper and vibrator, and the time.
pub pilot_round-udp_round :
    {Frame : Type 0} (imencode : Frame → ℕ → Option (List ℕ)) (sys : Sockets) (r : Bler Frame)
    (read_buffer : List ℕ) (station robot_addr : SockAddr) (env : Surroundings) (xbox : Xbox)
    (now id : ℕ) (w : Window) (p : Pilot)
    → IsXbox xbox
    → IsPilot p
    → p.enumerate_js ≡ false
    → p.js_id ≡ pos id
    → contains xbox.ids id ≡ true
    → w.is_connected ≡ true
    → w.current_drive_mode ≡ remote
    → w.robot_packet_endpoint ≡ some robot_addr
    → (flown : Pilot) × (packet : List ℕ) × (after : Round Frame) × (pilot_round xbox now w p
        ≡ ok (flown, udp_write packet robot_addr ∷ []))
      × IsPilot flown
      × (udp_round imencode sys r read_buffer env (datagram packet station) ≡ ok after)
      × (signed8 after.robot.latest_drive_payload.left ≡ flown.left_y)
      × (signed8 after.robot.latest_drive_payload.right ≡ flown.right_y)
      × (signed8 after.robot.latest_drive_payload.actuator
          ≡ actuator_speed flown.left_trigger flown.right_trigger)
      × (after.robot.latest_drive_payload.scooper ≡ flown.scooper_speed)
      × (after.robot.latest_drive_payload.vibrator ≡ flown.vibrator_speed)
      × (after.robot.last_drive_payload_received_time ≡ env.now)
unfolding drive_payload speeds_of
pilot_round-udp_round imencode sys r b station robot_addr env xbox now id w p promised inv found js
      there on mode peer =
    let (flown, within, ends) = fly_lem xbox now w p id promised inv in
    let payload = drive_payload (speeds_of flown) in
    let (after, received, robot, sent) = udp_round-drive imencode sys r b station env payload in
    (
      flown,
      sent_bytes drive_opcode (drive_body payload),
      after,
      pilot_round-flies xbox now id w p found js there
          ∙ ends
          ∙ ap
              (λ (sent : Outcome (List Event)).
                sent >>= λ (events : List Event). ok (flown, events))
              (send_speeds-connected w (speeds_of flown) _ robot_addr
                (get_drive_packet_lem (speeds_of flown)) on mode peer),
      within,
      received,
      rw robot (signed8-small flown.left_y within.left_y),
      rw robot (signed8-small flown.right_y within.right_y),
      rw robot (
          signed8-small _ (
            actuator_speed-small flown.left_trigger flown.right_trigger within.left_trigger
              within.right_trigger)),
      rw robot (omega (arith, within.scooper)),
      rw robot (omega (arith, within.vibrator)),
      rw robot,
    )
