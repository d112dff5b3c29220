-- ===== src/Bler/Udp.antt =====
-- Robot/src/BLER.cpp: `ReceivePacketsFromUdp`, one round of its loop.
pub mod Spec
pub mod Sender
pub mod Dispatch
pub mod Total
pub mod Deliver
pub mod Keeps
pub mod Obeys
pub mod Replies
use lame.Prelude.{
  ℕ, Bool, true, false, ◌&&◌, List, [], ◌∷◌, ◌++◌, Option, none, some, length, take, drop,
  replicate, Outcome, ok, ◌>>=◌, u8, ltb, ◌==◌, if◌then◌else◌,
}
use lame.Packet.Opcodes.{
  drive_opcode, direct_switch_opcode, ai_switch_opcode, remote_switch_opcode,
  query_camera_image_opcode, query_camera1_image_opcode, set_camera_quality_opcode,
  query_heartbeat_opcode, enable_encoder_opcode, disable_encoder_opcode,
}
use lame.Packet.Payloads.{DrivePayload, CameraQualityPayload}
use lame.Packet.Header.{HeaderRead, read_packet_header, pointee}
use lame.Packet.Create.{
  create_report_heartbeat_packet, create_switch_mode_ack_packet, create_ai_init_packet,
}
use lame.Packet.Parse.{parse_drive_payload, parse_quality_payload}
use lame.Bler.State.{Sockets, SockAddr, DriveMode, direct, remote, ai, Bler}
use lame.Bler.Sending.{Event, send_packet_serial, send_packet_udp}
use lame.Bler.Camera.{Link, send_camera_image}

-- `opcode`, the local that `ReadPacketHeader` was given the address of.
abbrev pub pointee_or_zero : Option ℕ → ℕ
pointee_or_zero none = 0
pointee_or_zero (some op) = op

abbrev pub read_buffer_size : ℕ
read_buffer_size = 64

-- What the round finds around it: the clock, the network for an image, and what the memory of the
-- two local payload structs holds, which the code does not initialise.
pub record Surroundings : Type 0 where
  pub now : ℕ
  pub link : Link
  pub stale_drive : DrivePayload
  pub stale_quality : CameraQualityPayload

-- What `socket->Read` gives: an error, or a datagram and its source.
pub data Received : Type 0 where
  failed : Received
  datagram : List ℕ → SockAddr → Received

-- The loop's variables after the round, and what it sent.
pub record Round (Frame : Type 0) : Type 0 where
  pub robot : Bler Frame
  pub read_buffer : List ℕ
  pub events : List Event

unfoldable pub is_from_ai : {Frame : Type 0} → Sockets → Bler Frame → SockAddr → Bool
is_from_ai sys r addr =
    addr.sin_family == sys.af_inet
    && (addr.s_addr == sys.htonl sys.inaddr_loopback && addr.sin_port == r.ai_addr.sin_port)

-- `if (!is_from_ai) baseStationAddr = addr;`
pub note_sender : {Frame : Type 0} → Sockets → Bler Frame → SockAddr → Bler Frame
note_sender sys r addr = if is_from_ai sys r addr then r else record r { base_station_addr = addr }

module _ {Frame : Type 0} (imencode : Frame → ℕ → Option (List ℕ)) (sys : Sockets) where
  -- `case QUERY_HEARTBEAT_OPCODE`
  pub on_query_heartbeat : Bler Frame → SockAddr → Bool → ℕ → Outcome (Bler Frame × List Event)
  on_query_heartbeat r addr from_ai now =
      create_report_heartbeat_packet (replicate 16 0) 16 >>= λ s.
      let sent = send_packet_udp s.0 s.1 (some addr) in
      ok (
        if from_ai
            then record r { ai_connected = true; last_ai_heartbeat_received_time = now }
            else r,
        sent,
      )

  -- `case AI_SWITCH_OPCODE`
  pub on_ai_switch : Bler Frame → SockAddr → Outcome (Bler Frame × List Event)
  on_ai_switch r addr = create_switch_mode_ack_packet (replicate 16 0) 16 >>= λ ack.
      create_ai_init_packet (replicate 16 0) 16 >>= λ init.
      let acked = send_packet_udp ack.0 ack.1 (some addr) in
      let begun = send_packet_udp init.0 init.1 (some addr) in
      ok (record r { current_mode = ai }, if r.ai_connected then acked ++ begun else acked)

  -- `case REMOTE_SWITCH_OPCODE`
  pub on_remote_switch : Bler Frame → ℕ → Outcome (Bler Frame × List Event)
  on_remote_switch r now = create_switch_mode_ack_packet (replicate 16 0) 16 >>= λ ack. ok (
    record r { last_drive_payload_received_time = now; current_mode = remote },
    send_packet_udp ack.0 ack.1 (some r.base_station_addr),
  )

  -- `case SET_CAMERA_QUALITY_OPCODE`
  pub on_set_camera_quality :
      Bler Frame → List ℕ → Option ℕ → CameraQualityPayload → Outcome (Bler Frame × List Event)
  on_set_camera_quality r read_buffer payload stale =
      parse_quality_payload read_buffer payload (some stale) >>= elim [
        | none ↦ ok (r, [])
        | some p ↦ ok (record r { quality = if ltb 100 p.quality then 100 else p.quality }, [])
      ]

  -- `case DRIVE_OPCODE`
  pub on_drive :
      Bler Frame → List ℕ → Option ℕ → DrivePayload → ℕ → Outcome (Bler Frame × List Event)
  on_drive r read_buffer payload stale now =
      parse_drive_payload read_buffer payload (some stale) >>= elim [
        | none ↦ ok (r, [])
        | some p ↦
            ok (record r { latest_drive_payload = p; last_drive_payload_received_time = now }, [])
      ]

  -- The `switch` on the opcode; `none` is its default, `continue`.
  pub dispatch :
      Bler Frame
      → SockAddr
      → Bool
      → List ℕ
      → ℕ
      → ℕ
      → Option ℕ
      → Surroundings
      → Outcome (Option (Bler Frame × List Event))
  dispatch r addr from_ai read_buffer bytes_read opcode payload env =
      if opcode == query_heartbeat_opcode
      then (on_query_heartbeat r addr from_ai env.now >>= λ x. ok (some x))
      else if opcode == ai_switch_opcode
      then (on_ai_switch r addr >>= λ x. ok (some x))
      else if opcode == remote_switch_opcode
      then (on_remote_switch r env.now >>= λ x. ok (some x))
      else if opcode == direct_switch_opcode
      then ok (some (record r { current_mode = direct }, []))
      else if opcode == query_camera_image_opcode
      then ok (some (r, send_camera_image imencode sys r 0 env.link))
      else if opcode == query_camera1_image_opcode
      then ok (some (r, send_camera_image imencode sys r 1 env.link))
      else if opcode == set_camera_quality_opcode
      then (on_set_camera_quality r read_buffer payload env.stale_quality >>= λ x. ok (some x))
      else if opcode == drive_opcode
      then (on_drive r read_buffer payload env.stale_drive env.now >>= λ x. ok (some x))
      else if opcode == enable_encoder_opcode
      then ok (some (r, send_packet_serial read_buffer bytes_read))
      else if opcode == disable_encoder_opcode
      then ok (some (r, send_packet_serial read_buffer bytes_read))
      else ok none

  -- After `ReadPacketHeader`: `continue` on 0, else the `switch`, and `memset` after its `break`.
  pub after_header :
      Bler Frame → SockAddr → Bool → ℕ → Surroundings → HeaderRead → Outcome (Round Frame)
  after_header r addr from_ai bytes_read env h =
      if h.result == 0
      then ok (record { robot = r; read_buffer = h.buffer; events = [] })
      else (dispatch r addr from_ai h.buffer bytes_read (pointee_or_zero h.opcode)
            (pointee h.payload_ptr) env
          >>= elim [
            | none ↦ ok (record { robot = r; read_buffer = h.buffer; events = [] })
            | some (r', sent) ↦
                ok
                  (record { robot = r'; read_buffer = replicate read_buffer_size 0; events = sent })
          ])

  -- One round of the loop. `recvfrom` puts at most `READ_BUFFER_SIZE` bytes in front of what the
  -- array held.
  pub udp_round : Bler Frame → List ℕ → Surroundings → Received → Outcome (Round Frame)
  udp_round r read_buffer env failed =
      ok (record { robot = r; read_buffer = read_buffer; events = [] })
  udp_round r read_buffer env (datagram packet addr) =
      let bytes = take read_buffer_size packet in
      let filled = bytes ++ drop (length bytes) read_buffer in
      read_packet_header (some filled) (u8 (length bytes)) (some 0) (some none) >>= λ h.
      after_header (note_sender sys r addr) addr (is_from_ai sys r addr) (length bytes) env h
