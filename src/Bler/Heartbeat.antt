-- ===== src/Bler/Heartbeat.antt =====
-- Robot/src/BLER.cpp: `QueryHeartbeatAI`, one round of its loop.
pub mod Timeout
use lame.Prelude.{
  ℕ, ◌+◌, List, [], ◌++◌, Option, some, replicate, Outcome, ok, ◌>>=◌, ltb, if◌then◌else◌,
}
use lame.Packet.Create.{create_query_heartbeat_packet, create_remote_switch_packet}
use lame.Bler.State.{DriveMode, direct, remote, ai, Bler}
use lame.Bler.Sending.{Event, send_packet_udp}

abbrev pub ai_timeout_interval : ℕ
ai_timeout_interval = 5

-- The two packets that are made before the loop.
pub record Beats : Type 0 where
  pub query : List ℕ × ℕ
  pub to_remote : List ℕ × ℕ

pub make_beats : Outcome Beats
make_beats = create_query_heartbeat_packet (replicate 16 0) 16 >>= λ q.
    create_remote_switch_packet (replicate 16 0) 16 >>= λ t.
    ok (record { query = q; to_remote = t })

module _ {Frame : Type 0} where
  -- The round in AI mode.
  pub watch_ai : Bler Frame → Beats → ℕ → Bler Frame × List Event
  watch_ai r beats now =
      let asked = send_packet_udp beats.query.0 beats.query.1 (some r.ai_addr) in
      if ltb (r.last_ai_heartbeat_received_time + ai_timeout_interval) now
      then (
        record r { current_mode = remote },
        send_packet_udp beats.to_remote.0 beats.to_remote.1 (some r.base_station_addr) ++ asked,
      )
      else (r, asked)

  pub heartbeat_mode : DriveMode → Bler Frame → Beats → ℕ → Bler Frame × List Event
  heartbeat_mode direct r beats now = (r, [])
  heartbeat_mode remote r beats now = (r, [])
  heartbeat_mode ai r beats now = watch_ai r beats now

  pub heartbeat_round : Bler Frame → Beats → ℕ → Bler Frame × List Event
  heartbeat_round r beats now = heartbeat_mode r.current_mode r beats now
