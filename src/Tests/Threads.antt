-- ===== src/Tests/Threads.antt =====
-- The interleavings of the robot's threads, and its whole life, at concrete inputs.
use lame.Prelude.{ℕ, ◌≡◌, refl, [], ◌∷◌, All, ok, arith}
use lame.Packet.Payloads.{DrivePayload}
use lame.Packet.Opcodes.{remote_switch_opcode}
use lame.Packet.Create.Fixed.{wire}
use lame.Bler.State.{remote, Bler}
use lame.Bler.Sending.{serial_write}
use lame.Bler.Udp.{Round, datagram, udp_round}
use lame.Bler.Execute.{execute_round}
use lame.Bler.Execute.Drive.{drive_bytes}
use lame.Bler.Execute.Resumes.{execute_round-resumes}
use lame.Bler.Races.{
  left_field, right_field, vibrator_field, actuator_field, scooper_field, Race, judge, listening,
  sleeping, begin_race, parses, stores, stamps, starts, loads, sends, Reach, here, next,
}
use lame.Bler.Races.Sources.{Sourced}
use lame.Bler.Races.Sourced.{Reach-Sourced}
use lame.Bler.Races.Runs.{rounds-Reach, Reach-torn}
use lame.Tests.Samples.{
  linux, compress, station, robot_in, zeroed, around, forward, no_motion, sticks,
}

-- The robot stood; `forward` arrives between the left and the right wheel.
abbrev torn : Race
torn = record {
  shared = record { latest = forward; received_time = 1010; mode = remote };
  writer = listening;
  reader = sleeping;
  written = forward ∷ no_motion ∷ [];
  noted = 1010 ∷ 1000 ∷ [];
  sent = (1010, record forward { left = 0 }) ∷ [];
}

torn-reached : Reach (begin_race (robot_in remote)) torn
unfolding judge
torn-reached =
    next
      (next
        (next
          (next
            (next
              (next
                (next
                  (next
                    (next
                      (next
                        (next
                          (next
                            (next (next here (starts no_motion refl refl))
                              (loads _ left_field _ refl))
                            (parses forward refl))
                          (stores forward left_field _ refl))
                        (stores forward right_field _ refl))
                      (stores forward vibrator_field _ refl))
                    (stores forward actuator_field _ refl))
                  (stores forward scooper_field _ refl))
                (stamps forward 1010 refl))
              (loads _ right_field _ refl))
            (loads _ vibrator_field _ refl))
          (loads _ actuator_field _ refl))
        (loads _ scooper_field _ refl))
      (sends _ 1010 refl)

Reach-Sourced_example :
    All
      (λ (e : ℕ × DrivePayload). Sourced (forward ∷ no_motion ∷ []) (1010 ∷ 1000 ∷ []) e.0 e.1)
      ((1010, record forward { left = 0 }) ∷ [])
Reach-Sourced_example = Reach-Sourced (robot_in remote) torn torn-reached

Reach-torn_example :
    (s : Race) × Reach (begin_race (robot_in remote)) s
    × (s.sent ≡ (1010, record forward { left = 0 }) ∷ [])
Reach-torn_example = Reach-torn (robot_in remote) forward no_motion 1010 refl

rounds-Reach_example :
    (after : Round ℕ) × (s : Race) × (sent : DrivePayload) × (udp_round compress linux
        (robot_in remote)
        zeroed
        around
        (datagram (drive_bytes forward) station)
      ≡ ok after)
    × (execute_round after.robot sticks no_motion 1012 ≡ ok (serial_write (drive_bytes sent) ∷ []))
    × Reach (begin_race (robot_in remote)) s
    × (s.shared ≡ (begin_race after.robot).shared)
    × (s.sent ≡ (1012, sent) ∷ [])
rounds-Reach_example =
    rounds-Reach compress linux (robot_in remote) zeroed station around forward no_motion sticks
      1012 refl

-- The robot was driving forward when the station fell silent.
abbrev silent : Bler ℕ
silent = record (robot_in remote) { latest_drive_payload = forward }

execute_round-resumes_example :
    (execute_round silent sticks no_motion 1005
      ≡ ok (serial_write (drive_bytes (record forward { left = 0; right = 0 })) ∷ []))
    × (after : Round ℕ) × (udp_round compress linux silent zeroed around
          (datagram (wire remote_switch_opcode) station)
        ≡ ok after)
    × (execute_round after.robot sticks no_motion 1012
        ≡ ok (serial_write (drive_bytes forward) ∷ []))
execute_round-resumes_example =
    execute_round-resumes compress linux silent zeroed station around sticks no_motion 1005 1012
      refl (omega arith) (omega arith)
