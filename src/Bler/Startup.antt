-- ===== src/Bler/Startup.antt =====
-- Robot/src/BLER.cpp: `Run`, up to the threads that it starts.
use lame.Prelude.{
  ℕ, ◌≡◌, Bool, true, false, ◌||◌, List, [], ◌∷◌, ◌==◌, if◌then◌else◌, inl, inr, Bool-cases,
}
use lame.Bler.State.{Bler}

-- One for each loop of the class.
pub data Thread : Type 0 where
  serial_read udp_read execute ai_heartbeat camera_read camera_send : Thread

abbrev pub tag : Thread → ℕ
tag serial_read = 0
tag udp_read = 1
tag execute = 2
tag ai_heartbeat = 3
tag camera_read = 4
tag camera_send = 5

-- Whether the thread is one of these.
unfoldable pub runs : Thread → List Thread → Bool
runs t [] = false
runs t (x ∷ threads) = tag t == tag x || runs t threads

-- Whether the socket, the serial port and the joysticks come up. (A camera that does not open is
-- only reported.)
pub record Devices : Type 0 where
  pub socket_opens : Bool
  pub serial_port_opens : Bool
  pub joysticks_initialize : Bool

-- The robot afterwards, what is returned, and the threads that run.
pub record Started (Frame : Type 0) : Type 0 where
  pub robot : Bler Frame
  pub result : Bool
  pub threads : List Thread

unfoldable pub run : {Frame : Type 0} → Bler Frame → Devices → Started Frame
run r devices =
    if devices.socket_opens
    then (if devices.serial_port_opens
        then (if devices.joysticks_initialize
            then record {
              robot = record r { is_running = true };
              result = true;
              threads = serial_read ∷ udp_read ∷ execute ∷ camera_read ∷ camera_send ∷ [];
            }
            else record { robot = r; result = false; threads = [] })
        else record { robot = r; result = false; threads = [] })
    else record { robot = r; result = false; threads = [] }

-- `Run` starts five threads or none. The AI's heartbeat is never among them.
pub run-heartbeat :
    {Frame : Type 0} (r : Bler Frame) (devices : Devices)
    → runs ai_heartbeat (run r devices).threads ≡ false
unfolding run runs
run-heartbeat r devices = elim (Bool-cases devices.socket_opens) [
  | inr no_socket ↦ rw no_socket
  | inl socket ↦ elim (Bool-cases devices.serial_port_opens) [
    | inr no_port ↦ rw (socket, no_port)
    | inl port ↦ elim (Bool-cases devices.joysticks_initialize) [
      | inr no_sticks ↦ rw (socket, port, no_sticks)
      | inl sticks ↦ rw (socket, port, sticks)
    ]
  ]
]
