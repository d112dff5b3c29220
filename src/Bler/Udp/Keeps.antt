-- ===== src/Bler/Udp/Keeps.antt =====
-- What a round of `ReceivePacketsFromUdp` in Robot/src/BLER.cpp may change.
use lame.Prelude.{
  ◌⊎◌, inl, inr, ℕ, ◌≤◌, ◌<◌, ◌≡◌, refl, ap, ◌∙◌, Bool, true, false, arith, ok, List, [], length,
  Option, none, some, take, if◌then◌else◌,
}
use lame.Packet.Opcodes.{ai_switch_opcode, remote_switch_opcode, direct_switch_opcode}
use lame.Packet.Header.{HeaderRead, read_packet_header}
use lame.Bler.State.{Sockets, SockAddr, DriveMode, direct, remote, ai, Bler}
use lame.Bler.Sending.{Event}
use lame.Bler.Udp.{
  Surroundings, failed, datagram, Round, is_from_ai, note_sender, udp_round, pointee_or_zero,
}
use lame.Bler.Udp.Sender.{note_sender-Noted}
use lame.Bler.Udp.Spec.{
  Handles, heartbeat, to_ai_connected, to_ai_alone, to_remote, to_direct, image, image1,
  quality_set, driven, encoder_switched, unknown,
}
use lame.Bler.Udp.Total.{Outcomes, dropped, ignored, handled, arrived, udp_round-Outcomes}

-- The opcode `op` is one of the three switches, and `m` the mode that it names.
pub data SwitchedTo (op : ℕ) (m : DriveMode) : Type 0 where
  to_ai_mode : op ≡ ai_switch_opcode → m ≡ ai → SwitchedTo op m
  to_remote_mode : op ≡ remote_switch_opcode → m ≡ remote → SwitchedTo op m
  to_direct_mode : op ≡ direct_switch_opcode → m ≡ direct → SwitchedTo op m

module _ {Frame : Type 0} (imencode : Frame → ℕ → Option (List ℕ)) (sys : Sockets) where
  pub record Kept (r : Bler Frame) (op : ℕ) (r' : Bler Frame) : Type 0 where
    pub mode : (r'.current_mode ≡ r.current_mode) ⊎ SwitchedTo op r'.current_mode
    pub quality : (r'.quality ≡ r.quality) ⊎ (r'.quality ≤ 100)
    pub ai_addr : r'.ai_addr ≡ r.ai_addr
    pub running : r'.is_running ≡ r.is_running
    pub base : r'.base_station_addr ≡ r.base_station_addr

  robot_of : Bler Frame → Option (Bler Frame × List Event) → Bler Frame
  robot_of r none = r
  robot_of r (some y) = y.0

  same : (r : Bler Frame) (op : ℕ) → Kept r op r
  same r op = record {
    mode = inl refl;
    quality = inl refl;
    ai_addr = refl;
    running = refl;
    base = refl;
  }

  Handles-Kept :
      (r : Bler Frame) (addr : SockAddr) (from_ai : Bool) (b : List ℕ) (n : ℕ) (payload : Option ℕ)
      (env : Surroundings) (op : ℕ) (r' : Bler Frame) (sent : List Event)
      → Handles imencode sys r addr from_ai b n payload env op (some (r', sent))
      → Kept r op r'
  unfolding robot_of
  Handles-Kept r addr from_ai b n payload env op r' sent (heartbeat e x) =
      rw (ap (robot_of r) x) (split from_ai)
    where
      split :
          (f : Bool)
          → Kept r op (
              if f
              then record r { ai_connected = true; last_ai_heartbeat_received_time = env.now }
              else r)
      split true = record {
        mode = inl refl;
        quality = inl refl;
        ai_addr = refl;
        running = refl;
        base = refl;
      }
      split false = same r op
  Handles-Kept r addr from_ai b n payload env op r' sent (to_ai_connected e c x) =
      rw (ap (robot_of r) x) (record {
        mode = inr (to_ai_mode e refl);
        quality = inl refl;
        ai_addr = refl;
        running = refl;
        base = refl;
      })
  Handles-Kept r addr from_ai b n payload env op r' sent (to_ai_alone e c x) =
      rw (ap (robot_of r) x) (record {
        mode = inr (to_ai_mode e refl);
        quality = inl refl;
        ai_addr = refl;
        running = refl;
        base = refl;
      })
  Handles-Kept r addr from_ai b n payload env op r' sent (to_remote e x) =
      rw (ap (robot_of r) x) (record {
        mode = inr (to_remote_mode e refl);
        quality = inl refl;
        ai_addr = refl;
        running = refl;
        base = refl;
      })
  Handles-Kept r addr from_ai b n payload env op r' sent (to_direct e x) =
      rw (ap (robot_of r) x) (record {
        mode = inr (to_direct_mode e refl);
        quality = inl refl;
        ai_addr = refl;
        running = refl;
        base = refl;
      })
  Handles-Kept r addr from_ai b n payload env op r' sent (image e x) =
      rw (ap (robot_of r) x) (same r op)
  Handles-Kept r addr from_ai b n payload env op r' sent (image1 e x) =
      rw (ap (robot_of r) x) (same r op)
  Handles-Kept r addr from_ai b n payload env op r' sent (quality_set p e parsed x) =
      rw (ap (robot_of r) x) (record {
        mode = inl refl;
        quality = inr (omega arith);
        ai_addr = refl;
        running = refl;
        base = refl;
      })
  Handles-Kept r addr from_ai b n payload env op r' sent (driven p e parsed x) =
      rw (ap (robot_of r) x) (record {
        mode = inl refl;
        quality = inl refl;
        ai_addr = refl;
        running = refl;
        base = refl;
      })
  Handles-Kept r addr from_ai b n payload env op r' sent (encoder_switched e x) =
      rw (ap (robot_of r) x) (same r op)
  Handles-Kept r addr from_ai b n payload env op r' sent (unknown e x) = absurd (cc)

  -- What a round may change: the mode, by an accepted packet with one of the three switch opcodes,
  -- to the mode that it names; the image quality, to at most 100; and the base station's
  -- address, which becomes the sender's unless the sender is the AI, also where the packet is
  -- refused. The AI's address and `isRunning` stay.
  pub record RoundKept (r : Bler Frame) (addr : SockAddr) (h : HeaderRead) (r' : Bler Frame)
      : Type 0 where
    pub mode :
        (r'.current_mode ≡ r.current_mode)
        ⊎ ((0 < h.result) × SwitchedTo (pointee_or_zero h.opcode) r'.current_mode)
    pub quality : (r'.quality ≡ r.quality) ⊎ (r'.quality ≤ 100)
    pub ai_addr : r'.ai_addr ≡ r.ai_addr
    pub running : r'.is_running ≡ r.is_running
    pub base : r'.base_station_addr ≡ (if is_from_ai sys r addr then r.base_station_addr else addr)

  noted :
      (r : Bler Frame) (addr : SockAddr) (h : HeaderRead) (r' : Bler Frame)
      → r' ≡ note_sender sys r addr
      → RoundKept r addr h r'
  noted r addr h r' e =
      let n = note_sender-Noted sys r addr in
      rw e (record {
        mode = inl n.mode;
        quality = inl n.quality;
        ai_addr = n.ai_addr;
        running = n.running;
        base = n.base;
      })

  Outcomes-RoundKept :
      (r : Bler Frame) (read_buffer packet : List ℕ) (addr : SockAddr) (env : Surroundings)
      (h : HeaderRead) (after : Round Frame)
      → Outcomes imencode sys r read_buffer packet addr env h after
      → RoundKept r addr h after.robot
  Outcomes-RoundKept r read_buffer packet addr env h after (dropped z e sent) =
      noted r addr h after.robot e
  Outcomes-RoundKept r read_buffer packet addr env h after (ignored pos spec e sent) =
      noted r addr h after.robot e
  Outcomes-RoundKept r read_buffer packet addr env h after (handled pos spec) =
      let n = note_sender-Noted sys r addr in
      let k =
        Handles-Kept (note_sender sys r addr) addr _ _ _ _ env _ after.robot after.events spec in
      record {
        mode = elim (rw n.mode at k.mode) [ inl e ↦ inl e | inr to ↦ inr (pos, to) ];
        quality = (rw n.quality at k.quality);
        ai_addr = k.ai_addr ∙ n.ai_addr;
        running = k.running ∙ n.running;
        base = k.base ∙ n.base;
      }

  -- Whatever datagram arrives, the round ends, and what it may have changed is as `RoundKept` says
  -- of the packet read from the datagram's first 64 bytes.
  pub udp_round-RoundKept :
      (r : Bler Frame) (read_buffer packet : List ℕ) (addr : SockAddr) (env : Surroundings)
      → length read_buffer ≡ 64
      → (h : HeaderRead) × (after : Round Frame) × (read_packet_header
            (some (arrived read_buffer packet))
            (length (take 64 packet))
            (some 0)
            (some none)
          ≡ ok h)
        × (udp_round imencode sys r read_buffer env (datagram packet addr) ≡ ok after)
        × (length after.read_buffer ≡ 64)
        × RoundKept r addr h after.robot
  udp_round-RoundKept r read_buffer packet addr env size =
      let (h, after, read, received, l, spec) =
        udp_round-Outcomes imencode sys r read_buffer packet addr env size in
      (h, after, read, received, l, Outcomes-RoundKept r read_buffer packet addr env h after spec)

  pub udp_round-failed :
      (r : Bler Frame) (read_buffer : List ℕ) (env : Surroundings)
      → udp_round imencode sys r read_buffer env failed
        ≡ ok (record { robot = r; read_buffer = read_buffer; events = [] })
  unfolding udp_round
  udp_round-failed r read_buffer env = refl
