-- ===== src/Bler/Execute.antt =====
-- Robot/src/BLER.cpp: `Execute`, one round of its loop.
pub mod Drive
pub mod Resumes
use lame.Prelude.{
  ℕ, ◌+◌, Bool, ◌&&◌, List, [], ◌∷◌, Option, none, some, replicate, Outcome, ok, ◌>>=◌, ltb,
  if◌then◌else◌,
}
use lame.Prelude.Int.{ℤ, pos, negsuc, ltb_ℤ, signed8, to_byte}
use lame.Packet.Payloads.{DrivePayload}
use lame.Packet.Create.{create_drive_packet}
use lame.Bler.State.{DriveMode, direct, remote, ai, Bler}
use lame.Bler.Sending.{Event, send_packet_serial}

abbrev pub xbox_deadzone : ℕ
xbox_deadzone = 20

-- What JoystickLibrary answers in this round: the connected joysticks, and the vertical axes of
-- each, `none` where the call returns false.
pub record Joystick : Type 0 where
  pub get_ids : List ℕ
  pub get_left_y : ℕ → Option ℤ
  pub get_right_y : ℕ → Option ℤ

-- `js.GetLeftY(js_id, left) ? left : 0`, stored in an `int8_t`.
pub axis : Option ℤ → ℕ
axis none = 0
axis (some v) = to_byte v

-- `if (v > -XBOX_DEADZONE && v < XBOX_DEADZONE) v = 0;`
pub deadzone : ℕ → ℕ
deadzone v = if ltb_ℤ (negsuc 19) (signed8 v) && ltb_ℤ (signed8 v) (pos xbox_deadzone) then 0 else v

-- `case DriveMode::Direct`. The fields that the code does not set keep what the memory of the local
-- struct holds, `stale`.
pub direct_payload : Joystick → ℕ → DrivePayload → DrivePayload
unfolding axis deadzone
direct_payload js js_id stale = record stale {
  left = deadzone (axis (js.get_left_y js_id));
  right = deadzone (axis (js.get_right_y js_id));
}

-- `case DriveMode::Remote`: the payload that is sent at the time `now`.
unfoldable pub remote_payload : {Frame : Type 0} → Bler Frame → ℕ → DrivePayload
remote_payload r now =
    if ltb (r.last_drive_payload_received_time + 2) now
    then record r.latest_drive_payload { left = 0; right = 0 }
    else r.latest_drive_payload

pub send_drive : DrivePayload → Outcome (List Event)
send_drive p = create_drive_packet (replicate 64 0) 64 p >>= λ s. ok (send_packet_serial s.0 s.1)

pub execute_direct : Joystick → List ℕ → DrivePayload → Outcome (List Event)
execute_direct js [] stale = ok []
execute_direct js (js_id ∷ ids) stale = send_drive (direct_payload js js_id stale)

pub execute_mode :
    {Frame : Type 0} → DriveMode → Bler Frame → Joystick → DrivePayload → ℕ → Outcome (List Event)
execute_mode direct r js stale now = execute_direct js js.get_ids stale
execute_mode remote r js stale now = send_drive (remote_payload r now)
execute_mode ai r js stale now = ok []

pub execute_round :
    {Frame : Type 0} → Bler Frame → Joystick → DrivePayload → ℕ → Outcome (List Event)
unfolding execute_mode
execute_round r js stale now = execute_mode r.current_mode r js stale now
