-- ===== src/Bler/Udp/Deliver.antt =====
-- Packets that were created by Robot/include/Packet.h and arrive whole in
-- `ReceivePacketsFromUdp` of Robot/src/BLER.cpp.
use mathlib.Core.List.{append_assoc}
use lame.Prelude.{
  ℕ, ◌+◌, ◌<◌, ◌≡◌, ◌⊎◌, inl, inr, refl, ap, ◌∙◌, Bool, List, [], ◌∷◌, ◌++◌, Option, none, some,
  length, length-take, take, take_all, drop, replicate, arith, ok,
}
use lame.Packet.Opcodes.{drive_opcode, enable_encoder_opcode, disable_encoder_opcode}
use lame.Packet.Payloads.{DrivePayload}
use lame.Packet.Cobs.Reference.{stuff}
use lame.Packet.Header.{read_packet_header, write_payload_ptr}
use lame.Packet.Header.Accept.{framed, sent_bytes, length-sent_bytes, read-framed}
use lame.Packet.Create.Packets.{drive_body}
use lame.Packet.Create.Fixed.{wire}
use lame.Packet.Parse.Fields.{parse_drive_payload_lem, parse_drive_payload_null}
use lame.Bler.State.{Sockets, SockAddr, Bler}
use lame.Bler.Sending.{serial_write, send_packet_serial}
use lame.Bler.Udp.{
  Surroundings, datagram, Round, dispatch, on_drive, after_header, note_sender, udp_round,
}
use lame.Bler.Udp.Total.{arrived, udp_round_lem}

-- What `ReadPacketHeader` makes of them in the robot's array.
pub read-sent_bytes :
    (op : ℕ) (body read_buffer : List ℕ) (n : ℕ)
    → n ≡ length body + 3
    → n < 60
    → (st : ℕ) × (read_packet_header
          (some (arrived read_buffer (sent_bytes op body)))
          (length (take 64 (sent_bytes op body)))
          (some 0)
          (some none)
        ≡ ok (record {
          buffer = framed op body ++ st ∷ 0 ∷ drop (length (sent_bytes op body)) read_buffer;
          result = n;
          opcode = some op;
          payload_ptr = write_payload_ptr n (some none);
        }))
read-sent_bytes op body read_buffer n e small =
    let size = length-sent_bytes op body in
    let whole : take 64 (sent_bytes op body) ≡ sent_bytes op body = take_all _ 64 (omega arith) in
    let count : length (sent_bytes op body) ≡ n + 2 = omega arith in
    let (st, read) =
      read-framed op body (0 ∷ drop (length (sent_bytes op body)) read_buffer) n 0 (some none)
        (omega arith) e in
    (
      st,
      ap
            (λ l.
              read_packet_header (some (l ++ drop (length l) read_buffer)) (length l) (some 0)
                (some none))
            whole
          ∙ ap
              (λ k.
                read_packet_header
                  (some (sent_bytes op body ++ drop (length (sent_bytes op body)) read_buffer)) k
                  (some 0) (some none))
              count
          ∙ ap (λ b. read_packet_header (some b) (n + 2) (some 0) (some none))
              (append_assoc (stuff (framed op body)) (0 ∷ []) _)
          ∙ read,
    )

module _ {Frame : Type 0} (imencode : Frame → ℕ → Option (List ℕ)) (sys : Sockets) where
  dispatch-encoder :
      (r : Bler Frame) (addr : SockAddr) (from_ai : Bool) (b : List ℕ) (n op : ℕ)
      (payload : Option ℕ) (env : Surroundings)
      → (op ≡ enable_encoder_opcode) ⊎ (op ≡ disable_encoder_opcode)
      → dispatch imencode sys r addr from_ai b n op payload env
        ≡ ok (some (r, send_packet_serial b n))
  unfolding dispatch
  dispatch-encoder r addr from_ai b n op payload env (inl e) = rw e
  dispatch-encoder r addr from_ai b n op payload env (inr e) = rw e

  module _ (r : Bler Frame) (read_buffer : List ℕ) (addr : SockAddr) (env : Surroundings) where
    -- A drive packet that `CreateDrivePacket` made from `p`, from whomever, makes `p` the latest
    -- drive payload and notes the time and the sender; all else stays, and nothing is sent.
    pub udp_round-drive :
        (p : DrivePayload)
        → (after : Round Frame) × (udp_round imencode sys r read_buffer env
              (datagram (sent_bytes drive_opcode (drive_body p)) addr)
            ≡ ok after)
          × (after.robot ≡ record (note_sender sys r addr) {
            latest_drive_payload = p;
            last_drive_payload_received_time = env.now;
          })
          × (after.events ≡ [])
    unfolding after_header dispatch on_drive write_payload_ptr
    udp_round-drive p =
        let (st, read) =
          read-sent_bytes drive_opcode (drive_body p) read_buffer 9 refl (omega arith) in
        (
          record {
            robot = record (note_sender sys r addr) {
              latest_drive_payload = p;
              last_drive_payload_received_time = env.now;
            };
            read_buffer = replicate 64 0;
            events = [];
          },
          udp_round_lem imencode sys r read_buffer _ addr env
              (omega (arith, length-take 64 (sent_bytes drive_opcode (drive_body p)))) read
              (rw (parse_drive_payload_lem 0xab drive_opcode 5 _ p env.stale_drive)),
          refl,
          refl,
        )

    -- A drive packet without a payload passes every test: the robot's latest drive payload becomes
    -- whatever the memory of the uninitialised local struct held.
    pub udp_round-empty_drive :
        (after : Round Frame) × (udp_round imencode sys r read_buffer env
            (datagram (wire drive_opcode) addr)
          ≡ ok after)
        × (after.robot.latest_drive_payload ≡ env.stale_drive)
        × (after.robot.last_drive_payload_received_time ≡ env.now)
    unfolding after_header dispatch on_drive write_payload_ptr
    udp_round-empty_drive =
        let (st, read) = read-sent_bytes drive_opcode (0 ∷ []) read_buffer 4 refl (omega arith) in
        (
          record {
            robot = record (note_sender sys r addr) {
              latest_drive_payload = env.stale_drive;
              last_drive_payload_received_time = env.now;
            };
            read_buffer = replicate 64 0;
            events = [];
          },
          udp_round_lem imencode sys r read_buffer _ addr env
              (omega (arith, length-take 64 (wire drive_opcode))) read
              (rw (parse_drive_payload_null 0xab drive_opcode 0 _ env.stale_drive)),
          refl,
          refl,
        )

    -- An encoder packet is passed on to the serial port as it stands decoded in the array, not as
    -- it was received: its four bytes, one byte `st` that decoding left there, and a zero.
    pub udp_round-encoder :
        (op : ℕ)
        → (op ≡ enable_encoder_opcode) ⊎ (op ≡ disable_encoder_opcode)
        → (st : ℕ) × (after : Round Frame) × (udp_round imencode sys r read_buffer env
              (datagram (wire op) addr)
            ≡ ok after)
          × (after.robot ≡ note_sender sys r addr)
          × (after.events ≡ serial_write (0xab ∷ op ∷ 0 ∷ 0x7f ∷ st ∷ 0 ∷ []) ∷ [])
    unfolding after_header send_packet_serial write_payload_ptr
    udp_round-encoder op which =
        let (st, read) = read-sent_bytes op (0 ∷ []) read_buffer 4 refl (omega arith) in
        let bytes : length (take 64 (wire op)) ≡ 6 =
          omega (arith, length-take 64 (wire op), length-sent_bytes op (0 ∷ [])) in
        (
          st,
          record {
            robot = note_sender sys r addr;
            read_buffer = replicate 64 0;
            events = serial_write (0xab ∷ op ∷ 0 ∷ 0x7f ∷ st ∷ 0 ∷ []) ∷ [];
          },
          udp_round_lem imencode sys r read_buffer _ addr env (omega arith) read
              (rw (dispatch-encoder (note_sender sys r addr) addr _ _ _ op _ env which, bytes)),
          refl,
          refl,
        )
