-- ===== src/Tests/Robot.antt =====
-- The theorems on Robot/src/BLER.cpp, at a concrete robot.
use lame.Prelude.{ℕ, ◌≡◌, List, refl, true, [], ◌∷◌, length, none, some, ok, arith}
use lame.Packet.Opcodes.{drive_opcode, remote_switch_opcode}
use lame.Packet.Header.{HeaderRead, read_packet_header}
use lame.Packet.Create.Fixed.{wire}
use lame.Bler.State.{direct, remote, ai}
use lame.Bler.Sending.{serial_write}
use lame.Bler.Udp.{datagram, Round, udp_round}
use lame.Bler.Udp.Total.{Outcomes, arrived, udp_round-Outcomes}
use lame.Bler.Udp.Keeps.{udp_round-RoundKept}
use lame.Bler.Udp.Deliver.{udp_round-empty_drive}
use lame.Bler.Execute.{execute_round}
use lame.Bler.Execute.Drive.{drive_bytes, execute_round-udp_round}
use lame.Bler.Heartbeat.{Beats, make_beats}
use lame.Bler.Heartbeat.Timeout.{Watch, heartbeat_round_lem}
use lame.Bler.Startup.{Devices, run, runs}
use lame.Bler.System.{World, Step, udp}
use lame.Bler.System.Modes.{IsSound, Cause, Step-Good}
use lame.Tests.Samples.{
  garbage, forward, no_motion, linux, compress, ai_peer, station, robot_in, zeroed, around, sticks,
}

udp_round-Outcomes_example :
    (h : HeaderRead) × (after : Round ℕ) × (read_packet_header
        (some (arrived zeroed garbage))
        6
        (some 0)
        (some none)
      ≡ ok h)
    × (udp_round compress linux (robot_in ai) zeroed around (datagram garbage station) ≡ ok after)
    × (length after.read_buffer ≡ 64)
    × Outcomes compress linux (robot_in ai) zeroed garbage station around h after
udp_round-Outcomes_example =
    udp_round-Outcomes compress linux (robot_in ai) zeroed garbage station around refl

udp_round-empty_drive_example :
    (after : Round ℕ) × (udp_round compress linux
        (robot_in remote)
        zeroed
        around
        (datagram (wire drive_opcode) station)
      ≡ ok after)
    × (after.robot.latest_drive_payload ≡ forward)
    × (after.robot.last_drive_payload_received_time ≡ 1010)
udp_round-empty_drive_example =
    udp_round-empty_drive compress linux (robot_in remote) zeroed station around

execute_round-udp_round_example :
    (after : Round ℕ) × (udp_round compress linux
        (robot_in remote)
        zeroed
        around
        (datagram (drive_bytes forward) station)
      ≡ ok after)
    × (execute_round after.robot sticks no_motion 1012
        ≡ ok (serial_write (drive_bytes forward) ∷ []))
execute_round-udp_round_example =
    execute_round-udp_round compress linux (robot_in remote) zeroed station around sticks forward
      no_motion 1012 refl (omega arith)

heartbeat_round_lem_example :
    (beats : Beats) × (make_beats ≡ ok beats) × Watch (robot_in ai) 1006 beats
heartbeat_round_lem_example = heartbeat_round_lem (robot_in ai) 1006

abbrev all_up : Devices
all_up = record { socket_opens = true; serial_port_opens = true; joysticks_initialize = true }

abbrev before : World ℕ
before = record { robot = robot_in direct; read_buffer = zeroed }

before-IsSound : IsSound ai_peer before
before-IsSound = record { buffer = refl; quality = omega arith; peer = refl }

-- The switch to remote mode arrives.
abbrev ordered : List ℕ
ordered = wire remote_switch_opcode

abbrev obeyed : World ℕ
obeyed =
    let round =
      udp_round-RoundKept compress linux (robot_in direct) zeroed ordered station around refl in
    record { robot = round.1.robot; read_buffer = round.1.read_buffer }

switching : Step compress linux (run (robot_in direct) all_up).threads before obeyed
unfolding run runs
switching =
    let round =
      udp_round-RoundKept compress linux (robot_in direct) zeroed ordered station around refl in
    udp around (datagram ordered station) round.1 refl refl round.3 refl

Step-Good_example :
    IsSound ai_peer obeyed
    × Cause compress linux (run (robot_in direct) all_up).threads before obeyed switching
Step-Good_example =
    Step-Good compress linux ai_peer (robot_in direct) all_up before obeyed before-IsSound switching
