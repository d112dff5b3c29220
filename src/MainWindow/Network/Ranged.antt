-- ===== src/MainWindow/Network/Ranged.antt =====
-- The speeds that `ReadJoystickValues` of BaseStation/BaseStation/MainWindow.xaml.cs can ask for.
use lame.Prelude.{◌≤◌, arith}
use lame.Prelude.Int.{signed8}
use lame.Packet.Payloads.{DrivePayload}
use lame.PacketHandler.{drive_payload}
use lame.MainWindow.Joystick.{Pilot, magnitude, speeds_of, actuator_speed}
use lame.MainWindow.Joystick.Limits.{IsPilot}
use lame.MainWindow.Joystick.Driven.{signed8-small, actuator_speed-small}

-- At most 100 either way.
pub record InRange (p : DrivePayload) : Type 0 where
  pub left : magnitude (signed8 p.left) ≤ 100
  pub right : magnitude (signed8 p.right) ≤ 100
  pub actuator : magnitude (signed8 p.actuator) ≤ 100
  pub scooper : p.scooper ≤ 100
  pub vibrator : p.vibrator ≤ 100

pub speeds_of-InRange : (p : Pilot) → IsPilot p → InRange (drive_payload (speeds_of p))
unfolding drive_payload speeds_of
speeds_of-InRange p within =
    let small =
      actuator_speed-small p.left_trigger p.right_trigger within.left_trigger
        within.right_trigger in
    record {
      left = rw (signed8-small p.left_y within.left_y) within.left_y;
      right = rw (signed8-small p.right_y within.right_y) within.right_y;
      actuator = rw (signed8-small (actuator_speed p.left_trigger p.right_trigger) small) small;
      scooper = omega (arith, within.scooper);
      vibrator = omega (arith, within.vibrator);
    }

-- With the wheels stopped.
pub stop-InRange : (p : DrivePayload) → InRange p → InRange (record p { left = 0; right = 0 })
stop-InRange p k = record {
  left = omega arith;
  right = omega arith;
  actuator = k.actuator;
  scooper = k.scooper;
  vibrator = k.vibrator;
}
