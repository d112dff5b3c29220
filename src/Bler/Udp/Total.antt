-- ===== src/Bler/Udp/Total.antt =====
-- A whole round of `ReceivePacketsFromUdp` in Robot/src/BLER.cpp, on any datagram.
use lame.Prelude.{
  ℕ, ◌%◌, ◌<◌, ◌≡◌, ◌⊎◌, inl, inr, refl, false, List, [], ◌++◌, Option, none, some, length,
  length-append, length-take, length-drop, take, drop, replicate, arith, ok, ◌==◌, Bool-cases,
}
use lame.Packet.Header.{HeaderRead, write_payload_ptr, pointee, read_packet_header}
use lame.Packet.Header.Safety.{Verdict, refused, accepted, read_packet_header_total}
use lame.Bler.State.{Sockets, SockAddr, Bler}
use lame.Bler.Sending.{Event}
use lame.Bler.Udp.{
  Surroundings, datagram, Round, is_from_ai, dispatch, after_header, note_sender, udp_round,
  pointee_or_zero, read_buffer_size,
}
use lame.Bler.Udp.Spec.{Handles}
use lame.Bler.Udp.Dispatch.{dispatch-Handles}

-- The payload pointer of an accepted packet.
payload_cases :
    (n : ℕ)
    → (pointee (write_payload_ptr n (some none)) ≡ none)
      ⊎ (pointee (write_payload_ptr n (some none)) ≡ some 3)
unfolding write_payload_ptr
payload_cases n = elim (Bool-cases (n == 4)) [ inl e ↦ inl (rw e) | inr e ↦ inr (rw e) ]

-- The array after `recvfrom`.
abbrev pub arrived : List ℕ → List ℕ → List ℕ
arrived read_buffer packet =
    let bytes = take read_buffer_size packet in bytes ++ drop (length bytes) read_buffer

length-arrived :
    (read_buffer packet : List ℕ)
    → length read_buffer ≡ 64
    → length (arrived read_buffer packet) ≡ 64
length-arrived read_buffer packet size = omega (
  arith,
  length-append (take 64 packet) (drop (length (take 64 packet)) read_buffer),
  length-take 64 packet,
  length-drop (length (take 64 packet)) read_buffer,
)

module _ {Frame : Type 0} (imencode : Frame → ℕ → Option (List ℕ)) (sys : Sockets) where
  -- What a datagram from `addr` comes to. `dropped`: the packet is refused, and the robot has only
  -- noted its sender. `ignored`: its opcode has no case; the same. `handled`: as `Handles` says,
  -- from the robot that has noted the sender.
  pub data Outcomes (r : Bler Frame) (read_buffer packet : List ℕ) (addr : SockAddr)
      (env : Surroundings) (h : HeaderRead) (after : Round Frame) : Type 0 where
    dropped :
        h.result ≡ 0
        → after.robot ≡ note_sender sys r addr
        → after.events ≡ []
        → Outcomes r read_buffer packet addr env h after
    ignored :
        0 < h.result
        → Handles imencode sys
            (note_sender sys r addr)
            addr
            (is_from_ai sys r addr)
            h.buffer
            (length (take 64 packet))
            (pointee h.payload_ptr)
            env
            (pointee_or_zero h.opcode)
            none
        → after.robot ≡ note_sender sys r addr
        → after.events ≡ []
        → Outcomes r read_buffer packet addr env h after
    handled :
        0 < h.result
        → Handles imencode sys
            (note_sender sys r addr)
            addr
            (is_from_ai sys r addr)
            h.buffer
            (length (take 64 packet))
            (pointee h.payload_ptr)
            env
            (pointee_or_zero h.opcode)
            (some (after.robot, after.events))
        → Outcomes r read_buffer packet addr env h after

  after_header-Outcomes :
      (r : Bler Frame) (read_buffer packet : List ℕ) (addr : SockAddr) (env : Surroundings)
      (h : HeaderRead)
      → length h.buffer ≡ 64
      → Verdict (some 0) (some none) h
      → (after : Round Frame) × (after_header imencode sys
            (note_sender sys r addr)
            addr
            (is_from_ai sys r addr)
            (length (take 64 packet))
            env
            h
          ≡ ok after)
        × (length after.read_buffer ≡ 64)
        × Outcomes r read_buffer packet addr env h after
  unfolding after_header
  after_header-Outcomes r read_buffer packet addr env h size (refused e op ptr) = (
    record { robot = note_sender sys r addr; read_buffer = h.buffer; events = [] },
    rw e,
    size,
    dropped e refl refl,
  )
  after_header-Outcomes r read_buffer packet addr env h size (accepted pos first last op ptr) =
      finish (
        dispatch-Handles imencode sys (note_sender sys r addr) addr (is_from_ai sys r addr) h.buffer
          (length (take 64 packet)) (pointee_or_zero h.opcode) (pointee h.payload_ptr) env
          (omega arith) (rw (← ptr) at (payload_cases h.result)))
    where
      nonzero : (h.result == 0) ≡ false
      nonzero = ground arith

      finish :
          ((x : Option (Bler Frame × List Event)) × (dispatch imencode sys
                (note_sender sys r addr)
                addr
                (is_from_ai sys r addr)
                h.buffer
                (length (take 64 packet))
                (pointee_or_zero h.opcode)
                (pointee h.payload_ptr)
                env
              ≡ ok x)
            × Handles imencode sys
                (note_sender sys r addr)
                addr
                (is_from_ai sys r addr)
                h.buffer
                (length (take 64 packet))
                (pointee h.payload_ptr)
                env
                (pointee_or_zero h.opcode)
                x)
          → (after : Round Frame) × (after_header imencode sys
                (note_sender sys r addr)
                addr
                (is_from_ai sys r addr)
                (length (take 64 packet))
                env
                h
              ≡ ok after)
            × (length after.read_buffer ≡ 64)
            × Outcomes r read_buffer packet addr env h after
      finish (none, e, spec) = (
        record { robot = note_sender sys r addr; read_buffer = h.buffer; events = [] },
        rw (nonzero, e),
        size,
        ignored pos spec refl refl,
      )
      finish (some (r', sent), e, spec) = (
        record { robot = r'; read_buffer = replicate 64 0; events = sent },
        rw (nonzero, e),
        refl,
        handled pos spec,
      )

  pub udp_round_lem :
      (r : Bler Frame) (read_buffer packet : List ℕ) (addr : SockAddr) (env : Surroundings)
      {h : HeaderRead} {after : Round Frame}
      → length (take 64 packet) < 256
      → read_packet_header
          (some (arrived read_buffer packet))
          (length (take 64 packet))
          (some 0)
          (some none)
        ≡ ok h
      → after_header imencode sys
          (note_sender sys r addr)
          addr
          (is_from_ai sys r addr)
          (length (take 64 packet))
          env
          h
        ≡ ok after
      → udp_round imencode sys r read_buffer env (datagram packet addr) ≡ ok after
  unfolding udp_round
  udp_round_lem r read_buffer packet addr env small read rest =
      let wraps : length (take 64 packet) % 256 ≡ length (take 64 packet) = omega arith in
      rw (wraps, read) rest

  -- Whatever datagram arrives, from whomever and of any length, a round of the UDP loop ends
  -- without leaving an array and keeps the 64 places of `read_buffer`; the datagram's first 64
  -- bytes are read as a packet, and the robot and what is sent are as `Outcomes` says of that.
  pub udp_round-Outcomes :
      (r : Bler Frame) (read_buffer packet : List ℕ) (addr : SockAddr) (env : Surroundings)
      → length read_buffer ≡ 64
      → (h : HeaderRead) × (after : Round Frame) × (read_packet_header
            (some (arrived read_buffer packet))
            (length (take 64 packet))
            (some 0)
            (some none)
          ≡ ok h)
        × (udp_round imencode sys r read_buffer env (datagram packet addr) ≡ ok after)
        × (length after.read_buffer ≡ 64)
        × Outcomes r read_buffer packet addr env h after
  udp_round-Outcomes r read_buffer packet addr env size =
      let full = length-arrived read_buffer packet size in
      let short = length-take 64 packet in
      let (h, read, (l, le, verdict)) =
        read_packet_header_total (arrived read_buffer packet) (length (take 64 packet)) (some 0)
          (some none) (omega (arith, short)) (omega (arith, short, full)) in
      let (after, rest, l', spec) =
        after_header-Outcomes r read_buffer packet addr env h (omega (arith, full)) verdict in
      (
        h,
        after,
        read,
        udp_round_lem r read_buffer packet addr env (omega (arith, short)) read rest,
        l',
        spec,
      )
