-- ===== src/Tests/Network.antt =====
-- The window and the robot over a network that loses and repeats, at concrete inputs.
use lame.Prelude.{arith, ok, [], ◌∷◌, ℕ, ◌≡◌, refl, true, none}
use lame.Bler.State.{SockAddr, direct as in_direct, remote as in_remote}
use lame.Bler.Udp.{is_from_ai}
use lame.MainWindow.State.{direct, ai}
use lame.MainWindow.Network.{Net, begin, Reach}
use lame.MainWindow.Network.Safety.{Reach-connected, Reach-InRange}
use lame.MainWindow.Network.Ranged.{InRange}
use lame.Packet.Payloads.{DrivePayload}
use lame.Bler.Sending.{serial_write}
use lame.Bler.Execute.{execute_round}
use lame.Bler.Execute.Drive.{drive_bytes}
use lame.MainWindow.Network.Stale.{Reach-stale}
use lame.Tests.Samples.{linux, compress, station, robot_in, around, sticks, forward, no_motion}

abbrev robot_addr : SockAddr
robot_addr = record { sin_family = 2; s_addr = 0x201a8c0; sin_port = 0x1027 }

-- The window was told to use AI mode after it had been connected in remote mode.
stale_run :
    (s : Net ℕ) × Reach compress linux station robot_addr (begin (robot_in in_direct)) s
    × (s.window.is_connected ≡ true)
    × (s.window.current_drive_mode ≡ ai)
    × (s.window.worker ≡ none)
    × (s.robot.current_mode ≡ in_remote)
unfolding is_from_ai
stale_run = Reach-stale compress linux station robot_addr (robot_in in_direct) around refl ai

Reach-stale_example :
    (s : Net ℕ) × Reach compress linux station robot_addr (begin (robot_in in_direct)) s
    × (s.window.is_connected ≡ true)
    × (s.window.current_drive_mode ≡ direct)
    × (s.window.worker ≡ none)
    × (s.robot.current_mode ≡ in_remote)
unfolding is_from_ai
Reach-stale_example =
    Reach-stale compress linux station robot_addr (robot_in in_direct) around refl direct

Reach-connected_example : stale_run.0.robot.current_mode ≡ in_remote
Reach-connected_example =
    Reach-connected compress linux station robot_addr (robot_in in_direct) stale_run.0 stale_run.1
      stale_run.2

still-InRange : InRange no_motion
still-InRange = record {
  left = omega arith;
  right = omega arith;
  actuator = omega arith;
  scooper = omega arith;
  vibrator = omega arith;
}

Reach-InRange_example :
    (p : DrivePayload) × InRange p
    × (execute_round stale_run.0.robot sticks forward 1012 ≡ ok (serial_write (drive_bytes p) ∷ []))
Reach-InRange_example =
    Reach-InRange compress linux station robot_addr (robot_in in_direct) stale_run.0 stale_run.1
      sticks forward 1012 still-InRange stale_run.5
