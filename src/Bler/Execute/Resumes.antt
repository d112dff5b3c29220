-- ===== src/Bler/Execute/Resumes.antt =====
-- `Execute` of Robot/src/BLER.cpp after a switch to remote mode.
use lame.Prelude.{ℕ, ◌+◌, ◌≤◌, ◌<◌, ◌≡◌, refl, ◌∙◌, List, [], ◌∷◌, Option, ok, lt→ltb, le→not_ltb}
use lame.Packet.Opcodes.{remote_switch_opcode}
use lame.Packet.Create.Fixed.{wire}
use lame.Packet.Payloads.{DrivePayload}
use lame.Bler.State.{Sockets, SockAddr, remote, Bler}
use lame.Bler.Sending.{serial_write}
use lame.Bler.Udp.{Surroundings, datagram, Round, udp_round}
use lame.Bler.Udp.Sender.{note_sender-Noted}
use lame.Bler.Udp.Replies.{udp_round-remote_switch}
use lame.Bler.Execute.{Joystick, remote_payload, execute_round}
use lame.Bler.Execute.Drive.{drive_bytes, execute_round-payload}

-- A robot that had stopped its wheels, since it had heard nothing for two seconds, drives on after a
-- switch to remote mode: for the next two seconds `Execute` sends the last payload in full again,
-- however old it is and though no drive packet has come.
pub execute_round-resumes :
    {Frame : Type 0} (imencode : Frame → ℕ → Option (List ℕ)) (sys : Sockets) (r : Bler Frame)
    (read_buffer : List ℕ) (addr : SockAddr) (env : Surroundings) (js : Joystick)
    (stale : DrivePayload) (before later : ℕ)
    → r.current_mode ≡ remote
    → r.last_drive_payload_received_time + 2 < before
    → later ≤ env.now + 2
    → (execute_round r js stale before
        ≡ ok (
            serial_write (drive_bytes (record r.latest_drive_payload { left = 0; right = 0 }))
            ∷ []))
      × (after : Round Frame) × (udp_round imencode sys r read_buffer env
            (datagram (wire remote_switch_opcode) addr)
          ≡ ok after)
      × (execute_round after.robot js stale later
          ≡ ok (serial_write (drive_bytes r.latest_drive_payload) ∷ []))
unfolding remote_payload
execute_round-resumes imencode sys r b addr env js stale before later on old soon =
    let (after, received, robot, _, _, _, _) = udp_round-remote_switch imencode sys r b addr env in
    (
      execute_round-payload r js stale before on ∙ rw (lt→ltb _ before old) refl,
      after,
      received,
      rw robot (
          execute_round-payload _ js stale later refl
          ∙ rw (le→not_ltb (env.now + 2) later soon, (note_sender-Noted sys r addr).payload) refl),
    )
