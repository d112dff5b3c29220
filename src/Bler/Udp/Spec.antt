-- ===== src/Bler/Udp/Spec.antt =====
-- What each opcode means to the robot, as a relation: the case split of `ReceivePacketsFromUdp` in
-- Robot/src/BLER.cpp without its arrays.
use lame.Prelude.{
  ℕ, ◌≡◌, ◌≢◌, ◌⊎◌, Bool, true, false, List, [], ◌∷◌, Option, none, some, take, ok, min, All,
  if◌then◌else◌,
}
use lame.Packet.Opcodes.{
  drive_opcode, direct_switch_opcode, ai_switch_opcode, remote_switch_opcode,
  switch_mode_ack_opcode, ai_init_opcode, query_camera_image_opcode, query_camera1_image_opcode,
  set_camera_quality_opcode, query_heartbeat_opcode, report_heartbeat_opcode, enable_encoder_opcode,
  disable_encoder_opcode,
}
use lame.Packet.Payloads.{DrivePayload, CameraQualityPayload}
use lame.Packet.Create.Fixed.{wire}
use lame.Packet.Parse.{parse_drive_payload, parse_quality_payload}
use lame.Bler.State.{Sockets, SockAddr, direct, remote, ai, Bler}
use lame.Bler.Sending.{Event, serial_write, udp_write}
use lame.Bler.Camera.{send_camera_image}
use lame.Bler.Udp.{Surroundings}

abbrev pub known_opcodes : List ℕ
known_opcodes =
    query_heartbeat_opcode ∷ ai_switch_opcode ∷ remote_switch_opcode ∷ direct_switch_opcode
    ∷ query_camera_image_opcode ∷ query_camera1_image_opcode ∷ set_camera_quality_opcode
    ∷ drive_opcode ∷ enable_encoder_opcode ∷ disable_encoder_opcode ∷ []

-- `Handles … op x`: a packet with the opcode `op`, decoded in the array `b` from `n` bytes received
-- from `addr`, comes to `x`: the robot and what was sent, or `none` if the opcode has no case.
module _ {Frame : Type 0} (imencode : Frame → ℕ → Option (List ℕ)) (sys : Sockets) where
  pub data Handles (r : Bler Frame) (addr : SockAddr) (from_ai : Bool) (b : List ℕ) (n : ℕ)
      (payload : Option ℕ) (env : Surroundings) (op : ℕ) (x : Option (Bler Frame × List Event))
      : Type 0 where
    heartbeat :
        op ≡ query_heartbeat_opcode
        → x
          ≡ some (
            if from_ai
                then record r { ai_connected = true; last_ai_heartbeat_received_time = env.now }
                else r,
            udp_write (wire report_heartbeat_opcode) addr ∷ [],
          )
        → Handles r addr from_ai b n payload env op x
    to_ai_connected :
        op ≡ ai_switch_opcode
        → r.ai_connected ≡ true
        → x
          ≡ some (
            record r { current_mode = ai },
            udp_write (wire switch_mode_ack_opcode) addr
                ∷ udp_write (wire ai_init_opcode) addr
                ∷ [],
          )
        → Handles r addr from_ai b n payload env op x
    to_ai_alone :
        op ≡ ai_switch_opcode
        → r.ai_connected ≡ false
        → x
          ≡ some (record r { current_mode = ai }, udp_write (wire switch_mode_ack_opcode) addr ∷ [])
        → Handles r addr from_ai b n payload env op x
    to_remote :
        op ≡ remote_switch_opcode
        → x
          ≡ some (
            record r { last_drive_payload_received_time = env.now; current_mode = remote },
            udp_write (wire switch_mode_ack_opcode) r.base_station_addr ∷ [],
          )
        → Handles r addr from_ai b n payload env op x
    to_direct :
        op ≡ direct_switch_opcode
        → x ≡ some (record r { current_mode = direct }, [])
        → Handles r addr from_ai b n payload env op x
    image :
        op ≡ query_camera_image_opcode
        → x ≡ some (r, send_camera_image imencode sys r 0 env.link)
        → Handles r addr from_ai b n payload env op x
    image1 :
        op ≡ query_camera1_image_opcode
        → x ≡ some (r, send_camera_image imencode sys r 1 env.link)
        → Handles r addr from_ai b n payload env op x
    quality_set :
        (p : CameraQualityPayload)
        → op ≡ set_camera_quality_opcode
        → parse_quality_payload b payload (some env.stale_quality) ≡ ok (some p)
        → x ≡ some (record r { quality = min 100 p.quality }, [])
        → Handles r addr from_ai b n payload env op x
    driven :
        (p : DrivePayload)
        → op ≡ drive_opcode
        → parse_drive_payload b payload (some env.stale_drive) ≡ ok (some p)
        → x
          ≡ some (
            record r { latest_drive_payload = p; last_drive_payload_received_time = env.now },
            [],
          )
        → Handles r addr from_ai b n payload env op x
    encoder_switched :
        (op ≡ enable_encoder_opcode) ⊎ (op ≡ disable_encoder_opcode)
        → x ≡ some (r, serial_write (take n b) ∷ [])
        → Handles r addr from_ai b n payload env op x
    unknown :
        All (λ c. op ≢ c) known_opcodes → x ≡ none → Handles r addr from_ai b n payload env op x
