-- ===== src/Bler/Udp/Replies.antt =====
-- What `ReceivePacketsFromUdp` of Robot/src/BLER.cpp makes of what the base station sends while it
-- connects.
use lame.Prelude.{
  ℕ, ◌<◌, ◌≡◌, refl, Bool, List, [], ◌∷◌, Option, some, none, length, length-take, take, arith, ok,
  if◌then◌else◌, replicate, true, false,
}
use lame.Packet.Opcodes.{
  query_heartbeat_opcode, report_heartbeat_opcode, remote_switch_opcode, switch_mode_ack_opcode,
  ai_init_opcode,
}
use lame.Packet.Header.Accept.{read-short}
use lame.Packet.Create.Fixed.{
  wire, take-wire_array, create_report_heartbeat_packet_lem, create_switch_mode_ack_packet_lem,
}
use lame.Bler.State.{Sockets, SockAddr, remote, Bler}
use lame.Bler.Sending.{udp_write, send_packet_udp}
use lame.Bler.Udp.{
  Surroundings, datagram, Round, is_from_ai, note_sender, on_query_heartbeat, on_remote_switch,
  dispatch, after_header, udp_round,
}
use lame.Bler.Udp.Sender.{note_sender-Noted}
use lame.Bler.Udp.Total.{udp_round_lem}
use lame.Bler.Udp.Deliver.{read-sent_bytes}

wire_fits : (op : ℕ) → length (take 64 (wire op)) < 256
wire_fits op = omega (arith, length-take 64 (wire op))

-- A robot that has changed neither its mode nor the AI's address.
pub record IsCalm {Frame : Type 0} (r r' : Bler Frame) : Type 0 where
  pub mode : r'.current_mode ≡ r.current_mode
  pub ai_addr : r'.ai_addr ≡ r.ai_addr

note_sender-IsCalm :
    {Frame : Type 0} (sys : Sockets) (r : Bler Frame) (addr : SockAddr)
    → IsCalm r (note_sender sys r addr)
note_sender-IsCalm sys r addr =
    let n = note_sender-Noted sys r addr in record { mode = n.mode; ai_addr = n.ai_addr }

heard-IsCalm :
    {Frame : Type 0} (from_ai : Bool) (r r' : Bler Frame) (now : ℕ)
    → IsCalm r r'
    → IsCalm r (
        if from_ai
        then record r' { ai_connected = true; last_ai_heartbeat_received_time = now }
        else r')
heard-IsCalm true r r' now k = record { mode = k.mode; ai_addr = k.ai_addr }
heard-IsCalm false r r' now k = k

module _ {Frame : Type 0} (imencode : Frame → ℕ → Option (List ℕ)) (sys : Sockets) (r : Bler Frame)
    (read_buffer : List ℕ) (addr : SockAddr) (env : Surroundings) where
  pub udp_round-query_heartbeat :
      (after : Round Frame) × (udp_round imencode sys r read_buffer env
          (datagram (wire query_heartbeat_opcode) addr)
        ≡ ok after)
      × IsCalm r after.robot
      × (after.events ≡ udp_write (wire report_heartbeat_opcode) addr ∷ [])
  unfolding after_header dispatch on_query_heartbeat send_packet_udp
  udp_round-query_heartbeat =
      let (st, read) =
        read-sent_bytes query_heartbeat_opcode (0 ∷ []) read_buffer 4 refl (omega arith) in
      (
        record {
          robot =
              if is_from_ai sys r addr
              then record (note_sender sys r addr) {
                ai_connected = true;
                last_ai_heartbeat_received_time = env.now;
              }
              else note_sender sys r addr;
          read_buffer = replicate 64 0;
          events = udp_write (wire report_heartbeat_opcode) addr ∷ [];
        },
        udp_round_lem imencode sys r read_buffer _ addr env (wire_fits _) read
            (rw (create_report_heartbeat_packet_lem, take-wire_array report_heartbeat_opcode) refl),
        heard-IsCalm (is_from_ai sys r addr) r (note_sender sys r addr) env.now
            (note_sender-IsCalm sys r addr),
        refl,
      )

  pub udp_round-remote_switch :
      (after : Round Frame) × (udp_round imencode sys r read_buffer env
          (datagram (wire remote_switch_opcode) addr)
        ≡ ok after)
      × (after.robot ≡ record (note_sender sys r addr) {
        last_drive_payload_received_time = env.now;
        current_mode = remote;
      })
      × (after.robot.current_mode ≡ remote)
      × (after.robot.ai_addr ≡ r.ai_addr)
      × (after.robot.base_station_addr ≡ (note_sender sys r addr).base_station_addr)
      × (after.events
          ≡ udp_write (wire switch_mode_ack_opcode) (note_sender sys r addr).base_station_addr ∷ [])
  unfolding after_header dispatch on_remote_switch send_packet_udp
  udp_round-remote_switch =
      let (st, read) =
        read-sent_bytes remote_switch_opcode (0 ∷ []) read_buffer 4 refl (omega arith) in
      (
        record {
          robot = record (note_sender sys r addr) {
            last_drive_payload_received_time = env.now;
            current_mode = remote;
          };
          read_buffer = replicate 64 0;
          events =
              udp_write (wire switch_mode_ack_opcode) (note_sender sys r addr).base_station_addr
              ∷ [];
        },
        udp_round_lem imencode sys r read_buffer _ addr env (wire_fits _) read
            (rw (create_switch_mode_ack_packet_lem, take-wire_array switch_mode_ack_opcode) refl),
        refl,
        refl,
        (note_sender-Noted sys r addr).ai_addr,
        refl,
        refl,
      )

  -- The robot has no case for the request to start the AI.
  pub udp_round-ai_init :
      (after : Round Frame) × (udp_round imencode sys r read_buffer env
          (datagram (wire ai_init_opcode) addr)
        ≡ ok after)
      × IsCalm r after.robot
      × (after.events ≡ [])
  unfolding after_header dispatch
  udp_round-ai_init =
      let (st, read) = read-sent_bytes ai_init_opcode (0 ∷ []) read_buffer 4 refl (omega arith) in
      (
        _,
        udp_round_lem imencode sys r read_buffer _ addr env (wire_fits _) read refl,
        note_sender-IsCalm sys r addr,
        refl,
      )

  -- An empty datagram is too short for a packet.
  pub udp_round-empty :
      (after : Round Frame) × (udp_round imencode sys r read_buffer env (datagram [] addr)
        ≡ ok after)
      × IsCalm r after.robot
      × (after.events ≡ [])
  unfolding after_header
  udp_round-empty = (
    record { robot = note_sender sys r addr; read_buffer = read_buffer; events = [] },
    udp_round_lem imencode sys r read_buffer [] addr env (omega arith)
        (read-short read_buffer 0 (some 0) (some none) (omega arith)) refl,
    note_sender-IsCalm sys r addr,
    refl,
  )
