-- ===== src/MainWindow/Network/Safety.antt =====
-- What being connected means in `MainWindow` of BaseStation/BaseStation/MainWindow.xaml.cs, and which
-- speeds the robot of Robot/src/BLER.cpp drives with, whatever the network does.
use lame.Prelude.{ℕ, ◌≡◌, inl, inr, refl, true, List, [], ◌∷◌, Option, ok}
use lame.Bler.State.{Sockets, SockAddr, remote, Bler}
use lame.Bler.Sending.{serial_write}
use lame.Packet.Payloads.{DrivePayload}
use lame.Bler.Execute.{Joystick, execute_round}
use lame.Bler.Execute.Drive.{drive_bytes, execute_round-remote}
use lame.MainWindow.Network.Ranged.{InRange, stop-InRange}
use lame.MainWindow.Network.{Net, begin, Reach}
use lame.MainWindow.Network.Honest.{IsAllowed, IsHonest, Reach-IsHonest}
use lame.MainWindow.Network.Knows.{construct-Knows}

module _ {Frame : Type 0} (imencode : Frame → ℕ → Option (List ℕ)) (sys : Sockets)
    (station robot_addr : SockAddr) (r : Bler Frame) (s : Net Frame)
    (reach : Reach imencode sys station robot_addr (begin r) s) where
  begin-IsHonest : IsHonest r.latest_drive_payload (begin r)
  unfolding IsAllowed
  begin-IsHonest = record {
    drives = inl refl;
    size = refl;
    asked = tt;
    told = tt;
    knows = construct-Knows r.current_mode;
  }

  reached : IsHonest r.latest_drive_payload s
  reached =
      Reach-IsHonest imencode sys station robot_addr r.latest_drive_payload (begin r) s
        begin-IsHonest reach

  -- Whatever is pressed, lost, delayed, repeated and reordered, from a window just opened and a
  -- robot in any mode: while the window counts as connected, the robot is in remote mode.
  pub Reach-connected : s.window.is_connected ≡ true → s.robot.current_mode ≡ remote
  Reach-connected = reached.knows.on

  -- Whatever is pressed, flown, lost, delayed, repeated and reordered, from a window just opened and
  -- a robot that began with speeds of at most 100 either way: a round of `Execute` in remote mode
  -- writes one drive packet to the serial port, whose speeds are at most 100 either way, if the
  -- joystick library has kept to its ranges.
  pub Reach-InRange :
      (js : Joystick) (stale : DrivePayload) (now : ℕ)
      → InRange r.latest_drive_payload
      → s.robot.current_mode ≡ remote
      → (p : DrivePayload) × InRange p
        × (execute_round s.robot js stale now ≡ ok (serial_write (drive_bytes p) ∷ []))
  unfolding IsAllowed
  Reach-InRange js stale now began on =
      let within : InRange s.robot.latest_drive_payload = elim reached.drives [
        | inl same ↦ rw same began
        | inr k ↦ k
      ] in
      elim (execute_round-remote s.robot js stale now on) [
        | inl (soon, e) ↦ (_, within, e)
        | inr (late, e) ↦ (_, stop-InRange _ within, e)
      ]
