-- ===== src/Bler/Udp/Obeys.antt =====
-- What `ReceivePacketsFromUdp` of Robot/src/BLER.cpp can do on a packet whose opcode is neither the
-- AI switch nor the direct switch.
use lame.Prelude.{
  ap, Bool, true, false, if◌then◌else◌, ℕ, ◌+◌, ◌<◌, ◌≡◌, ◌≢◌, refl, sym, ◌∙◌, ◌⊎◌, inl, inr, List,
  [], ◌∷◌, Option, none, some, length, All, arith, ok, ok-injective,
}
use lame.Packet.Opcodes.{
  drive_opcode, direct_switch_opcode, ai_switch_opcode, switch_mode_ack_opcode,
  report_heartbeat_opcode,
}
use lame.Packet.Header.{HeaderRead}
use lame.Packet.Header.Accept.{sent_bytes, read-short}
use lame.Packet.Create.Fixed.{wire}
use lame.Bler.State.{Sockets, SockAddr, DriveMode, remote, Bler}
use lame.Bler.Sending.{Event, serial_write, udp_write, tcp_write}
use lame.Bler.Camera.{Link, send_camera_image}
use lame.Bler.Camera.Tcp.{send_camera_image-tcp}
use lame.Bler.Udp.{Surroundings, datagram, Round, note_sender, udp_round, pointee_or_zero}
use lame.Bler.Udp.Sender.{note_sender-Noted}
use lame.Bler.Udp.Total.{Outcomes, dropped, ignored, handled, udp_round-Outcomes}
use lame.Bler.Udp.Deliver.{read-sent_bytes}
use lame.Bler.Udp.Spec.{
  Handles, heartbeat, to_ai_connected, to_ai_alone, to_remote, to_direct, image, image1,
  quality_set, driven, encoder_switched, unknown,
}

-- A datagram without payload that acknowledges a switch only in remote mode.
abbrev pub IsReply : DriveMode → List ℕ → Type 0
IsReply mode bytes = (op : ℕ) × (bytes ≡ wire op) × ((op ≡ switch_mode_ack_opcode) → mode ≡ remote)

abbrev pub IsTrue : DriveMode → Event → Type 0
IsTrue mode (serial_write bytes) = Unit
IsTrue mode (udp_write bytes addr) = IsReply mode bytes
IsTrue mode (tcp_write bytes addr) = Unit

-- On a packet with the opcode `op`: the robot stays in its mode or goes to remote mode, and says so
-- only then, and keeps its drive payload but on a drive packet.
pub record Obeyed {Frame : Type 0} (op : ℕ) (r r' : Bler Frame) (events : List Event) : Type 0 where
  pub payload : (r'.latest_drive_payload ≡ r.latest_drive_payload) ⊎ (op ≡ drive_opcode)
  pub mode : (r'.current_mode ≡ r.current_mode) ⊎ (r'.current_mode ≡ remote)
  pub answers : All (IsTrue r'.current_mode) events

report≢ack : report_heartbeat_opcode ≢ switch_mode_ack_opcode
report≢ack e = absurd (omega (arith, e))

module _ {Frame : Type 0} (imencode : Frame → ℕ → Option (List ℕ)) (sys : Sockets) where
  quiet :
      (op : ℕ) (r r' : Bler Frame)
      → r'.current_mode ≡ r.current_mode
      → (r'.latest_drive_payload ≡ r.latest_drive_payload) ⊎ (op ≡ drive_opcode)
      → Obeyed op r r' []
  quiet op r r' e kept = record { payload = kept; mode = inl e; answers = tt }

  pictured :
      (op : ℕ) (r : Bler Frame) (id : ℕ) (link : Link)
      → Obeyed op r r (send_camera_image imencode sys r id link)
  pictured op r id link = record {
    payload = inl refl;
    mode = inl refl;
    answers =
        send_camera_image-tcp imencode sys (IsTrue r.current_mode) (λ bytes addr. tt) id link r;
  }

  heard :
      (op : ℕ) (r : Bler Frame) (from_ai : Bool) (addr : SockAddr) (now : ℕ)
      → Obeyed op r
          (if from_ai
            then record r { ai_connected = true; last_ai_heartbeat_received_time = now }
            else r)
          (udp_write (wire report_heartbeat_opcode) addr ∷ [])
  heard op r true addr now = record {
    payload = inl refl;
    mode = inl refl;
    answers = ((report_heartbeat_opcode, refl, λ e. absurd (report≢ack e)), tt);
  }
  heard op r false addr now = record {
    payload = inl refl;
    mode = inl refl;
    answers = ((report_heartbeat_opcode, refl, λ e. absurd (report≢ack e)), tt);
  }

  -- The robot and its answer that a case of the `switch` comes to.
  abbrev ObeyedIfAny : ℕ → Bler Frame → Option (Bler Frame × List Event) → Type 0
  ObeyedIfAny op r none = Unit
  ObeyedIfAny op r (some x) = Obeyed op r x.0 x.1

  Handles-Obeyed :
      (r : Bler Frame) (addr : SockAddr) (from_ai : Bool) (b : List ℕ) (n : ℕ) (payload : Option ℕ)
      (env : Surroundings) (op : ℕ) (x : Option (Bler Frame × List Event))
      → op ≢ ai_switch_opcode
      → op ≢ direct_switch_opcode
      → Handles imencode sys r addr from_ai b n payload env op x
      → ObeyedIfAny op r x
  Handles-Obeyed r addr from_ai b n payload env op x a d (heartbeat e h) =
      rw h (heard op r from_ai addr env.now)
  Handles-Obeyed r addr from_ai b n payload env op x a d (to_ai_connected e c h) = absurd (a e)
  Handles-Obeyed r addr from_ai b n payload env op x a d (to_ai_alone e c h) = absurd (a e)
  Handles-Obeyed r addr from_ai b n payload env op x a d (to_remote e h) = rw h (record {
    payload = inl refl;
    mode = inr refl;
    answers = ((switch_mode_ack_opcode, refl, λ same. refl), tt);
  })
  Handles-Obeyed r addr from_ai b n payload env op x a d (to_direct e h) = absurd (d e)
  Handles-Obeyed r addr from_ai b n payload env op x a d (image e h) =
      rw h (pictured op r 0 env.link)
  Handles-Obeyed r addr from_ai b n payload env op x a d (image1 e h) =
      rw h (pictured op r 1 env.link)
  Handles-Obeyed r addr from_ai b n payload env op x a d (quality_set p e parsed h) =
      rw h (quiet op r _ refl (inl refl))
  Handles-Obeyed r addr from_ai b n payload env op x a d (driven p e parsed h) =
      rw h (quiet op r _ refl (inr e))
  Handles-Obeyed r addr from_ai b n payload env op x a d (encoder_switched e h) =
      rw h (record { payload = inl refl; mode = inl refl; answers = (tt, tt) })
  Handles-Obeyed r addr from_ai b n payload env op x a d (unknown e h) = rw h tt

  noted-Obeyed :
      (op : ℕ) (r r' : Bler Frame) (addr : SockAddr) (events : List Event)
      → Obeyed op (note_sender sys r addr) r' events
      → Obeyed op r r' events
  noted-Obeyed op r r' addr events o = record {
    payload = elim o.payload [
      | inl e ↦ inl (e ∙ (note_sender-Noted sys r addr).payload)
      | inr e ↦ inr e
    ];
    mode = elim o.mode [ inl e ↦ inl (e ∙ (note_sender-Noted sys r addr).mode) | inr e ↦ inr e ];
    answers = o.answers;
  }

  Outcomes-Obeyed :
      (r : Bler Frame) (b packet : List ℕ) (addr : SockAddr) (env : Surroundings) (h : HeaderRead)
      (after : Round Frame)
      → pointee_or_zero h.opcode ≢ ai_switch_opcode
      → pointee_or_zero h.opcode ≢ direct_switch_opcode
      → Outcomes imencode sys r b packet addr env h after
      → Obeyed (pointee_or_zero h.opcode) r after.robot after.events
  Outcomes-Obeyed r b packet addr env h after a d (dropped e robot events) =
      rw (robot, events) (noted-Obeyed _ r _ addr [] (quiet _ _ _ refl (inl refl)))
  Outcomes-Obeyed r b packet addr env h after a d (ignored pos spec robot events) =
      rw (robot, events) (noted-Obeyed _ r _ addr [] (quiet _ _ _ refl (inl refl)))
  Outcomes-Obeyed r b packet addr env h after a d (handled pos spec) =
      noted-Obeyed _ r _ addr _ (Handles-Obeyed _ _ _ _ _ _ _ _ _ a d spec)

  module _ (r : Bler Frame) (read_buffer : List ℕ) (addr : SockAddr) (env : Surroundings)
      (size : length read_buffer ≡ 64) where
    -- A packet that was made with any other opcode than the AI and the direct switch.
    pub udp_round-sent_bytes :
        (op : ℕ) (body : List ℕ)
        → length body < 57
        → op ≢ ai_switch_opcode
        → op ≢ direct_switch_opcode
        → (after : Round Frame) × (udp_round imencode sys r read_buffer env
              (datagram (sent_bytes op body) addr)
            ≡ ok after)
          × (length after.read_buffer ≡ 64)
          × Obeyed op r after.robot after.events
    udp_round-sent_bytes op body short a d =
        let (h, after, read, received, size', spec) =
          udp_round-Outcomes imencode sys r read_buffer (sent_bytes op body) addr env size in
        let (st, read') =
          read-sent_bytes op body read_buffer (length body + 3) refl (omega arith) in
        let here : pointee_or_zero h.opcode ≡ op =
          ap (λ (x : HeaderRead). pointee_or_zero x.opcode) (ok-injective (sym read ∙ read')) in
        (
          after,
          received,
          size',
          rw here at (
              Outcomes-Obeyed r read_buffer _ addr env h after (λ e. a (sym here ∙ e))
                (λ e. d (sym here ∙ e)) spec),
        )

    -- An empty datagram.
    pub udp_round-nothing :
        (after : Round Frame) × (udp_round imencode sys r read_buffer env (datagram [] addr)
          ≡ ok after)
        × (length after.read_buffer ≡ 64)
        × Obeyed 0 r after.robot after.events
    udp_round-nothing =
        let (h, after, read, received, size', spec) =
          udp_round-Outcomes imencode sys r read_buffer [] addr env size in
        let here : 0 ≡ pointee_or_zero h.opcode =
          ap (λ (x : HeaderRead). pointee_or_zero x.opcode)
            (ok-injective
              (sym (read-short read_buffer 0 (some 0) (some none) (omega arith)) ∙ read)) in
        (
          after,
          received,
          size',
          rw (← here) at (
              Outcomes-Obeyed r read_buffer _ addr env h after
                (λ e. absurd (omega (arith, here, e))) (λ e. absurd (omega (arith, here, e))) spec),
        )
