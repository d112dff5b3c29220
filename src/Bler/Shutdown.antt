-- ===== src/Bler/Shutdown.antt =====
-- Robot/src/BLER.cpp: the destructor of `BLER`.
use lame.Prelude.{◌≡◌, refl, true, false, List, [], ◌∷◌, ◌++◌, if◌then◌else◌, Bool-cases, inl, inr}
use lame.Bler.State.{Bler}
use lame.Bler.Startup.{
  Thread, serial_read, udp_read, execute, ai_heartbeat, camera_read, camera_send, runs, Devices,
  run,
}
use lame.Devices.Calls.{Call}
use lame.Devices.SerialPort.{SerialPort, close_port}
use lame.Devices.UdpSocket.{UdpSocket, close_socket}

-- The threads that it joins, in its order.
abbrev pub join_order : List Thread
join_order = ai_heartbeat ∷ serial_read ∷ udp_read ∷ execute ∷ []

-- `if (t.joinable()) t.join();` for each of the first threads: those that are among the second.
unfoldable pub joined : List Thread → List Thread → List Thread
joined [] threads = []
joined (t ∷ order) threads =
    let rest = joined order threads in if runs t threads then t ∷ rest else rest

-- The threads that were started and that it does not join. Destroying their `std::thread`, as the
-- end of the destructor does, terminates the program.
unfoldable pub unjoined : List Thread → List Thread → List Thread
unjoined order [] = []
unjoined order (t ∷ threads) =
    let rest = unjoined order threads in if runs t order then rest else t ∷ rest

pub record Ended (Frame : Type 0) : Type 0 where
  pub robot : Bler Frame
  pub serial_port : SerialPort
  pub socket : UdpSocket
  pub calls : List Call
  pub joins : List Thread
  pub leaves : List Thread

unfoldable pub shut_down :
    {Frame : Type 0} → Bler Frame → SerialPort → UdpSocket → List Thread → Ended Frame
shut_down r port socket threads =
    let (port', port_calls) = close_port port in
    let (socket', socket_calls) = close_socket socket in
    record {
      robot = record r { is_running = false };
      serial_port = port';
      socket = socket';
      calls = port_calls ++ socket_calls;
      joins = joined join_order threads;
      leaves = unjoined join_order threads;
    }

-- After a successful `Run` the destructor stops the loops and joins three of the five threads, but
-- leaves both camera threads running.
pub shut_down-run :
    {Frame : Type 0} (r : Bler Frame) (devices : Devices) (port : SerialPort) (socket : UdpSocket)
    → (run r devices).result ≡ true
    → let ended = shut_down (run r devices).robot port socket (run r devices).threads in
      (ended.robot.is_running ≡ false)
      × (ended.joins ≡ serial_read ∷ udp_read ∷ execute ∷ [])
      × (ended.leaves ≡ camera_read ∷ camera_send ∷ [])
unfolding run runs shut_down joined unjoined
shut_down-run r devices port socket e = elim (Bool-cases devices.socket_opens) [
  | inr no_socket ↦ absurd (cc (rw no_socket at e))
  | inl up ↦ elim (Bool-cases devices.serial_port_opens) [
    | inr no_port ↦ absurd (cc (rw (up, no_port) at e))
    | inl port_up ↦ elim (Bool-cases devices.joysticks_initialize) [
      | inr no_sticks ↦ absurd (cc (rw (up, port_up, no_sticks) at e))
      | inl sticks ↦ rw (up, port_up, sticks) (refl, refl, refl)
    ]
  ]
]
