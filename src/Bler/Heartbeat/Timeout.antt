-- ===== src/Bler/Heartbeat/Timeout.antt =====
-- `QueryHeartbeatAI` of Robot/src/BLER.cpp: when the AI is taken to be dead.
use native.Mathlib.Decide.{dec_le}
use lame.Prelude.{
  arith, ◌⊎◌, inl, inr, ℕ, ◌+◌, ◌≤◌, ◌<◌, ◌≡◌, ◌≢◌, refl, [], ◌∷◌, ok, lt→ltb, le→not_ltb,
}
use lame.Packet.Opcodes.{query_heartbeat_opcode, remote_switch_opcode}
use lame.Packet.Create.Fixed.{
  wire, wire_array, take-wire_array, create_query_heartbeat_packet_lem,
  create_remote_switch_packet_lem,
}
use lame.Bler.State.{DriveMode, direct, remote, ai, Bler}
use lame.Bler.Sending.{udp_write, send_packet_udp}
use lame.Bler.Heartbeat.{Beats, make_beats, watch_ai, heartbeat_mode, heartbeat_round}

Mode-cases : (m : DriveMode) → (m ≢ ai) ⊎ (m ≡ ai)
Mode-cases direct = inl (λ e. absurd cc)
Mode-cases remote = inl (λ e. absurd cc)
Mode-cases ai = inr refl

abbrev beats_made : Beats
beats_made = record {
  query = (wire_array query_heartbeat_opcode, 6);
  to_remote = (wire_array remote_switch_opcode, 6);
}

make_beats_lem : make_beats ≡ ok beats_made
unfolding make_beats
make_beats_lem = rw (create_query_heartbeat_packet_lem, create_remote_switch_packet_lem)

module _ {Frame : Type 0} (r : Bler Frame) (now : ℕ) where
  heartbeat_mode-other :
      (m : DriveMode) (beats : Beats) → m ≢ ai → heartbeat_mode m r beats now ≡ (r, [])
  unfolding heartbeat_mode
  heartbeat_mode-other direct beats other = refl
  heartbeat_mode-other remote beats other = refl
  heartbeat_mode-other ai beats other = absurd (other refl)

  -- What a round does with the packets `beats`.
  pub data Watch (beats : Beats) : Type 0 where
    other : r.current_mode ≢ ai → heartbeat_round r beats now ≡ (r, []) → Watch beats
    alive :
        r.current_mode ≡ ai
        → now ≤ r.last_ai_heartbeat_received_time + 5
        → heartbeat_round r beats now ≡ (r, udp_write (wire query_heartbeat_opcode) r.ai_addr ∷ [])
        → Watch beats
    dead :
        r.current_mode ≡ ai
        → r.last_ai_heartbeat_received_time + 5 < now
        → heartbeat_round r beats now ≡ (
          record r { current_mode = remote },
          udp_write (wire remote_switch_opcode) r.base_station_addr
              ∷ udp_write (wire query_heartbeat_opcode) r.ai_addr
              ∷ [],
        )
        → Watch beats

  heartbeat_round-Watch : Watch beats_made
  unfolding heartbeat_round heartbeat_mode watch_ai send_packet_udp
  heartbeat_round-Watch = elim (Mode-cases r.current_mode) [
    | inl n ↦ other n (heartbeat_mode-other r.current_mode beats_made n)
    | inr e ↦ elim (dec_le now (r.last_ai_heartbeat_received_time + 5)) [
      | yes h ↦ alive e h (
          rw (
            e,
            le→not_ltb (r.last_ai_heartbeat_received_time + 5) now h,
            take-wire_array query_heartbeat_opcode,
          ))
      | no l ↦ dead e (omega arith) (
          rw (
            e,
            lt→ltb (r.last_ai_heartbeat_received_time + 5) now (omega arith),
            take-wire_array query_heartbeat_opcode,
            take-wire_array remote_switch_opcode,
          ))
    ]
  ]

  -- The packets are made once, without a fault. A round in AI mode asks the AI for a heartbeat; if
  -- the last one is more than five seconds old the robot is first put into remote mode and the base
  -- station told so. In any other mode a round does nothing.
  pub heartbeat_round_lem : (beats : Beats) × (make_beats ≡ ok beats) × Watch beats
  heartbeat_round_lem = (beats_made, make_beats_lem, heartbeat_round-Watch)
