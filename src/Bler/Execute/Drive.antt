-- ===== src/Bler/Execute/Drive.antt =====
-- What `Execute` of Robot/src/BLER.cpp sends to the serial port.
use mathlib.Core.List.{append_assoc}
use native.Mathlib.Decide.{dec_le}
use lame.Prelude.{
  ◌⊎◌, inl, inr, ℕ, ◌+◌, ◌≤◌, ◌<◌, ◌≡◌, refl, sym, ◌∙◌, ◌&&◌, List, [], ◌∷◌, Option, none, some,
  take-append, replicate, arith, ok, lt→ltb, le→not_ltb, if◌then◌else◌,
}
use lame.Prelude.Int.{ℤ, pos, negsuc, ltb_ℤ, ◌≤ℤ◌, signed8}
use lame.Packet.Opcodes.{drive_opcode}
use lame.Packet.Payloads.{DrivePayload}
use lame.Packet.Cobs.Reference.{stuff}
use lame.Packet.Header.Accept.{framed, sent_bytes, length-sent_bytes}
use lame.Packet.Create.Packets.{create_drive_packet_lem, drive_body}
use lame.Bler.State.{Sockets, SockAddr, direct, remote, ai, Bler}
use lame.Bler.Sending.{serial_write, send_packet_serial}
use lame.Bler.Udp.{Surroundings, datagram, Round, udp_round}
use lame.Bler.Udp.Sender.{note_sender-Noted}
use lame.Bler.Udp.Deliver.{udp_round-drive}
use lame.Bler.Execute.{
  Joystick, axis, deadzone, direct_payload, remote_payload, send_drive, execute_direct,
  execute_mode, execute_round,
}

abbrev pub drive_bytes : DrivePayload → List ℕ
drive_bytes p = sent_bytes drive_opcode (drive_body p)

-- A drive payload goes out as one write of its eleven bytes.
send_drive_lem : (p : DrivePayload) → send_drive p ≡ ok (serial_write (drive_bytes p) ∷ [])
unfolding send_drive send_packet_serial
send_drive_lem p = rw (
  create_drive_packet_lem (replicate 9 0) 0 (replicate 53 0) 64 p refl (omega arith),
  sym (append_assoc (stuff (framed drive_opcode (drive_body p))) (0 ∷ []) (replicate 53 0)),
  take-append (drive_bytes p) (replicate 53 0) 11
      (omega (arith, length-sent_bytes drive_opcode (drive_body p))),
)

module _ {Frame : Type 0} (r : Bler Frame) (js : Joystick) (stale : DrivePayload) (now : ℕ) where
  pub execute_round-payload :
      r.current_mode ≡ remote
      → execute_round r js stale now ≡ ok (serial_write (drive_bytes (remote_payload r now)) ∷ [])
  unfolding execute_round execute_mode remote_payload
  execute_round-payload e = rw e (send_drive_lem (remote_payload r now))

  execute_round-fresh :
      r.current_mode ≡ remote
      → now ≤ r.last_drive_payload_received_time + 2
      → execute_round r js stale now ≡ ok (serial_write (drive_bytes r.latest_drive_payload) ∷ [])
  unfolding execute_round execute_mode remote_payload
  execute_round-fresh e h =
      rw (e, le→not_ltb (r.last_drive_payload_received_time + 2) now h) (send_drive_lem _)

  execute_round-late :
      r.current_mode ≡ remote
      → r.last_drive_payload_received_time + 2 < now
      → execute_round r js stale now
        ≡ ok (
            serial_write (drive_bytes (record r.latest_drive_payload { left = 0; right = 0 })) ∷ [])
  unfolding execute_round execute_mode remote_payload
  execute_round-late e h =
      rw (e, lt→ltb (r.last_drive_payload_received_time + 2) now h) (send_drive_lem _)

  -- In remote mode each round sends one drive packet: the latest payload if it came within two
  -- seconds, and else the same with both wheels stopped, its other fields kept.
  pub execute_round-remote :
      r.current_mode ≡ remote
      → ((now ≤ r.last_drive_payload_received_time + 2)
          × (execute_round r js stale now
              ≡ ok (serial_write (drive_bytes r.latest_drive_payload) ∷ [])))
        ⊎ ((r.last_drive_payload_received_time + 2 < now)
            × (execute_round r js stale now
                ≡ ok (
                    serial_write
                      (drive_bytes (record r.latest_drive_payload { left = 0; right = 0 }))
                    ∷ [])))
  execute_round-remote e = elim (dec_le now (r.last_drive_payload_received_time + 2)) [
    | yes h ↦ inl (h, execute_round-fresh e h)
    | no l ↦ inr (omega arith, execute_round-late e (omega arith))
  ]

  -- In AI mode nothing is sent to the serial port.
  pub execute_round-ai : r.current_mode ≡ ai → execute_round r js stale now ≡ ok []
  unfolding execute_round execute_mode
  execute_round-ai e = rw e

-- An axis of a joystick within the range of an `int8_t` is sent as it is, but as 0 within the dead
-- zone; an axis that cannot be read is sent as 0.
deadzone-axis :
    (v : ℤ)
    → negsuc 127 ≤ℤ v
    → v ≤ℤ pos 127
    → signed8 (deadzone (axis (some v)))
      ≡ (if ltb_ℤ (negsuc 19) v && ltb_ℤ v (pos 20) then pos 0 else v)
unfolding deadzone axis
deadzone-axis (pos n) lo hi = ground arith
deadzone-axis (negsuc n) lo hi = ground arith

-- What the sticks of the first joystick come to.
abbrev pub stick : Option ℤ → ℤ
stick none = pos 0
stick (some v) = if ltb_ℤ (negsuc 19) v && ltb_ℤ v (pos 20) then pos 0 else v

abbrev pub FitsAxis : Option ℤ → Type 0
FitsAxis none = Unit {0}
FitsAxis (some v) = (negsuc 127 ≤ℤ v) × (v ≤ℤ pos 127)

deadzone-stick : (a : Option ℤ) → FitsAxis a → signed8 (deadzone (axis a)) ≡ stick a
unfolding deadzone axis
deadzone-stick none fits = refl
deadzone-stick (some v) fits = deadzone-axis v fits.0 fits.1

-- In direct mode each round with a joystick connected sends one drive packet: the wheels follow the
-- first joystick's sticks, with the dead zone, where the axes fit an `int8_t`; the other three
-- fields are what the memory of the uninitialised struct held.
pub execute_round-direct :
    {Frame : Type 0} (r : Bler Frame) (js : Joystick) (stale : DrivePayload) (now : ℕ) (id : ℕ)
    (ids : List ℕ)
    → r.current_mode ≡ direct
    → js.get_ids ≡ id ∷ ids
    → FitsAxis (js.get_left_y id)
    → FitsAxis (js.get_right_y id)
    → (p : DrivePayload) × (execute_round r js stale now ≡ ok (serial_write (drive_bytes p) ∷ []))
      × (signed8 p.left ≡ stick (js.get_left_y id))
      × (signed8 p.right ≡ stick (js.get_right_y id))
      × (p.vibrator ≡ stale.vibrator)
      × (p.actuator ≡ stale.actuator)
      × (p.scooper ≡ stale.scooper)
unfolding execute_round execute_mode execute_direct direct_payload
execute_round-direct r js stale now id ids e h left right = (
  direct_payload js id stale,
  rw (e, h) (send_drive_lem _),
  deadzone-stick (js.get_left_y id) left,
  deadzone-stick (js.get_right_y id) right,
  refl,
  refl,
  refl,
)

-- Remote control from end to end: the drive packet that the sender made from `p` and that arrives
-- in remote mode is what the next round of `Execute` writes to the serial port, byte for byte, if it
-- comes within two seconds.
pub execute_round-udp_round :
    {Frame : Type 0} (imencode : Frame → ℕ → Option (List ℕ)) (sys : Sockets) (r : Bler Frame)
    (read_buffer : List ℕ) (addr : SockAddr) (env : Surroundings) (js : Joystick)
    (p stale : DrivePayload) (now : ℕ)
    → r.current_mode ≡ remote
    → now ≤ env.now + 2
    → (after : Round Frame) × (udp_round imencode sys r read_buffer env
          (datagram (drive_bytes p) addr)
        ≡ ok after)
      × (execute_round after.robot js stale now ≡ ok (serial_write (drive_bytes p) ∷ []))
execute_round-udp_round imencode sys r read_buffer addr env js p stale now e h =
    let (after, received, robot, sent) = udp_round-drive imencode sys r read_buffer addr env p in
    (
      after,
      received,
      rw robot (execute_round-fresh _ js stale now ((note_sender-Noted sys r addr).mode ∙ e) h),
    )
