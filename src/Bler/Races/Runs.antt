-- ===== src/Bler/Races/Runs.antt =====
-- Runs of the two threads of Robot/src/BLER.cpp: the rounds without interruption, and a drive packet
-- that arrives while `Execute` copies the latest one.
use lame.Prelude.{sym, ap, ◌∙◌, ok, Option, ℕ, ◌+◌, ◌≡◌, refl, List, [], ◌∷◌, arith, le→not_ltb}
use lame.Packet.Payloads.{DrivePayload}
use lame.Bler.State.{Sockets, SockAddr, remote, Bler}
use lame.Bler.Sending.{serial_write}
use lame.Bler.Udp.{Surroundings, datagram, Round, udp_round}
use lame.Bler.Udp.Sender.{note_sender-Noted}
use lame.Bler.Udp.Deliver.{udp_round-drive}
use lame.Bler.Execute.{Joystick, remote_payload, execute_round}
use lame.Bler.Execute.Drive.{drive_bytes, execute_round-payload}
use lame.Bler.Races.{
  left_field, right_field, vibrator_field, actuator_field, scooper_field, listening, sleeping, Race,
  judge, begin_race, parses, stores, stamps, starts, loads, sends, Reach, here, next,
}

-- The writer has stored `p` and noted the time, with nothing in between.
writes :
    (s : Race) (p : DrivePayload) (now : ℕ)
    → s.writer ≡ listening
    → Reach s (record s {
      shared = record s.shared { latest = p; received_time = now };
      writer = listening;
      written = p ∷ s.written;
      noted = now ∷ s.noted;
    })
writes s p now e =
    next
      (next
        (next
          (next
            (next (next (next here (parses p e)) (stores p left_field _ refl))
              (stores p right_field _ refl))
            (stores p vibrator_field _ refl))
          (stores p actuator_field _ refl))
        (stores p scooper_field _ refl))
      (stamps p now refl)

-- `Execute` has copied the latest payload and sent it, with nothing in between.
copies :
    (s : Race) (stale : DrivePayload) (now : ℕ)
    → s.reader ≡ sleeping
    → s.shared.mode ≡ remote
    → Reach s (record s {
      reader = sleeping;
      sent = (now, judge s.shared.latest s.shared.received_time now) ∷ s.sent;
    })
copies s stale now e on =
    next
      (next
        (next
          (next
            (next (next (next here (starts stale e on)) (loads _ left_field _ refl))
              (loads _ right_field _ refl))
            (loads _ vibrator_field _ refl))
          (loads _ actuator_field _ refl))
        (loads _ scooper_field _ refl))
      (sends _ now refl)

join : (s t u : Race) → Reach s t → Reach t u → Reach s u
join s t u before here = before
join s t u before (next {t = m} after access) = next (join s t m before after) access

judge-remote_payload :
    {Frame : Type 0} (r : Bler Frame) (now : ℕ)
    → judge r.latest_drive_payload r.last_drive_payload_received_time now ≡ remote_payload r now
unfolding judge remote_payload
judge-remote_payload r now = refl

-- A drive packet that `ReceivePacketsFromUdp` handles as one step in remote mode, and the round of
-- `Execute` after it as one step, are runs of the accesses: what the threads share then is as in the
-- robot that has received the packet, and one payload was sent, the one that the round writes to the
-- serial port.
pub rounds-Reach :
    {Frame : Type 0} (imencode : Frame → ℕ → Option (List ℕ)) (sys : Sockets) (r : Bler Frame)
    (read_buffer : List ℕ) (addr : SockAddr) (env : Surroundings) (p stale : DrivePayload)
    (js : Joystick) (now : ℕ)
    → r.current_mode ≡ remote
    → (after : Round Frame) × (s : Race) × (sent : DrivePayload) × (udp_round imencode sys r
          read_buffer env
          (datagram (drive_bytes p) addr)
        ≡ ok after)
      × (execute_round after.robot js stale now ≡ ok (serial_write (drive_bytes sent) ∷ []))
      × Reach (begin_race r) s
      × (s.shared ≡ (begin_race after.robot).shared)
      × (s.sent ≡ (now, sent) ∷ [])
rounds-Reach imencode sys r b addr env p stale js now on =
    let (after, received, robot, events) = udp_round-drive imencode sys r b addr env p in
    let mode = (note_sender-Noted sys r addr).mode in
    let written = writes (begin_race r) p env.now refl in
    let copied = copies _ stale now refl on in
    (
      after,
      _,
      judge p env.now now,
      received,
      rw robot (
          execute_round-payload _ js stale now (mode ∙ on)
          ∙ ap (λ l. ok (serial_write (drive_bytes l) ∷ [])) (sym (judge-remote_payload _ now))),
      join _ _ _ written copied,
      rw (robot, mode) refl,
      refl,
    )

-- If a drive packet arrives after `Execute` has copied the left wheel's speed, a payload is sent that
-- nobody ordered: the old speed of the left wheel with the other four fields of the new packet.
pub Reach-torn :
    {Frame : Type 0} (r : Bler Frame) (p stale : DrivePayload) (now : ℕ)
    → r.current_mode ≡ remote
    → (s : Race) × Reach (begin_race r) s
      × (s.sent ≡ (now, record p { left = r.latest_drive_payload.left }) ∷ [])
unfolding judge
Reach-torn r p stale now on =
    let begun = next (next here (starts stale refl on)) (loads _ left_field _ refl) in
    let written = join _ _ _ begun (writes _ p now refl) in
    (
      _,
      next
          (next
            (next (next (next written (loads _ right_field _ refl)) (loads _ vibrator_field _ refl))
              (loads _ actuator_field _ refl))
            (loads _ scooper_field _ refl))
          (sends _ now refl),
      rw (le→not_ltb (now + 2) now (omega arith)) refl,
    )
