-- ===== src/Bler/System.antt =====
-- The threads of Robot/src/BLER.cpp together: the rounds of their loops in any order. A round is
-- one step, so accesses of two threads to one field within a round are not interleaved.
pub mod Modes
use lame.Prelude.{ℕ, ◌≡◌, true, List, Option, some, ok}
use lame.Packet.Payloads.{DrivePayload}
use lame.Bler.State.{Sockets, SockAddr, Bler}
use lame.Bler.Udp.{Surroundings, Received, Round, udp_round}
use lame.Bler.Camera.{camera_read_round}
use lame.Bler.Heartbeat.{Beats, heartbeat_round}
use lame.Bler.Startup.{Thread, runs, udp_read, ai_heartbeat, camera_read}

-- What the threads share, and the UDP thread's array.
pub record World (Frame : Type 0) : Type 0 where
  pub robot : Bler Frame
  pub read_buffer : List ℕ

-- A round of one of the running `threads`. The rounds of the other threads (`serial_read`,
-- `execute`, `camera_send`) write no field of the robot: `still`.
pub data Step {Frame : Type 0} (imencode : Frame → ℕ → Option (List ℕ)) (sys : Sockets)
    (threads : List Thread) (s t : World Frame) : Type 0 where
  still : t ≡ s → Step imencode sys threads s t
  udp :
      (env : Surroundings) (received : Received) (after : Round Frame)
      → runs udp_read threads ≡ true
      → s.robot.is_running ≡ true
      → udp_round imencode sys s.robot s.read_buffer env received ≡ ok after
      → t ≡ record { robot = after.robot; read_buffer = after.read_buffer }
      → Step imencode sys threads s t
  camera :
      (img img1 : Option Frame)
      → runs camera_read threads ≡ true
      → s.robot.is_running ≡ true
      → t ≡ record s { robot = camera_read_round s.robot img img1 }
      → Step imencode sys threads s t
  heartbeat :
      (beats : Beats) (now : ℕ)
      → runs ai_heartbeat threads ≡ true
      → s.robot.is_running ≡ true
      → t ≡ record s { robot = (heartbeat_round s.robot beats now).0 }
      → Step imencode sys threads s t

pub data Reach {Frame : Type 0} (imencode : Frame → ℕ → Option (List ℕ)) (sys : Sockets)
    (threads : List Thread) (s : World Frame) : World Frame → Type 0 where
  here : Reach imencode sys threads s s
  next :
      {t u : World Frame}
      → Reach imencode sys threads s t
      → Step imencode sys threads t u
      → Reach imencode sys threads s u
