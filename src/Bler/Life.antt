-- ===== src/Bler/Life.antt =====
-- Robot/src/BLER.cpp: the constructor, `Run` and the destructor of `BLER` with the serial port and the
-- socket that it owns, and `main` of Robot/src/main.cpp.
pub mod Ends
use lame.Prelude.{
  ℕ, Bool, true, false, List, [], ◌∷◌, ◌++◌, Option, none, some, Outcome, ok, ◌>>=◌, if◌then◌else◌,
}
use lame.Prelude.Int.{ℤ, pos, to_half}
use lame.CommandLine.{Options, robot_options}
use lame.Bler.State.{Sockets, SockAddr, Bler}
use lame.Bler.State
use lame.Bler.Startup.{Thread, Devices, Started, run}
use lame.Bler.Shutdown.{Ended, shut_down}
use lame.Devices.Calls.{Call}
use lame.Devices.SerialPort.{SerialPort, open_port, close_port}
use lame.Devices.SerialPort
use lame.Devices.UdpSocket.{UdpSocket, open_socket}
use lame.Devices.UdpSocket

abbrev pub baud_rate : ℤ
baud_rate = pos 9600

-- A `BLER` with what its two pointers own and the threads that run.
pub record Live (Frame : Type 0) : Type 0 where
  pub robot : Bler Frame
  pub serial_port : SerialPort
  pub socket : UdpSocket
  pub threads : List Thread

-- What the constructor finds: the memory of the two fields that are left unset, the time, and what
-- `open` answers.
pub record Birth : Type 0 where
  pub stale_addr : SockAddr
  pub stale_handle : ℤ
  pub now : ℕ
  pub fd : ℤ

-- What `Run` finds: the answers of `socket`, `bind` and `open`, and whether the joysticks come up.
pub record Answers : Type 0 where
  pub sock_handle : ℤ
  pub binds : Bool
  pub fd : ℤ
  pub joysticks_initialize : Bool

-- The constructor: it opens the serial port and ignores whether that succeeds.
unfoldable pub make : {Frame : Type 0} → Sockets → Options → Birth → Live Frame × List Call
make sys o b =
    let (port, opened, calls) = open_port b.fd (SerialPort.construct o.serial_port baud_rate) in
    (
      record {
        robot = State.construct sys b.stale_addr (to_half o.ai_remote_port) b.now;
        serial_port = port;
        socket = UdpSocket.construct b.stale_handle o.port;
        threads = [];
      },
      calls,
    )

-- `Run`. The serial port is opened only if the socket was.
unfoldable pub run_live : {Frame : Type 0} → Live Frame → Answers → Live Frame × Bool × List Call
run_live l a =
    let (socket, socket_opens, socket_calls) = open_socket a.sock_handle a.binds l.socket in
    let (port, serial_port_opens, port_calls) = open_port a.fd l.serial_port in
    let started = run l.robot (record {
      socket_opens = socket_opens;
      serial_port_opens = serial_port_opens;
      joysticks_initialize = a.joysticks_initialize;
    }) in
    (
      record {
        robot = started.robot;
        serial_port = if socket_opens then port else l.serial_port;
        socket = socket;
        threads = started.threads;
      },
      started.result,
      if socket_opens then socket_calls ++ port_calls else socket_calls,
    )

-- How a destruction ends: by `std::terminate`, or with the members destroyed.
pub data Death : Type 0 where
  terminated : List Call → Death
  died : List Call → Death

-- The members after the destructor, the last first: the threads, then the socket, then the port.
unfoldable pub destroy_members : SerialPort → UdpSocket → List Thread → List Call → Death
destroy_members port socket (t ∷ threads) calls = terminated calls
destroy_members port socket [] calls =
    let (socket', socket_calls) = UdpSocket.destroy socket in
    let (port', port_calls) = SerialPort.destroy port in died (calls ++ socket_calls ++ port_calls)

unfoldable pub destroy_live : {Frame : Type 0} → Live Frame → Death
destroy_live l =
    let ended = shut_down l.robot l.serial_port l.socket l.threads in
    destroy_members ended.serial_port ended.socket ended.leaves ended.calls

-- How `main` goes on: it returns 1, with a robot destroyed or without one, or sleeps for ever while
-- the robot runs.
pub data Exit (Frame : Type 0) : Type 0 where
  without_robot : Exit Frame
  returned : List Call → Death → Exit Frame
  serving : Live Frame → List Call → Exit Frame

-- `main` from the construction of the robot.
unfoldable pub serve : {Frame : Type 0} → Sockets → Options → Birth → Answers → Exit Frame
serve sys o b a =
    let (made, born) = make sys o b in
    let (l, runs, calls) = run_live made a in
    if runs then serving l (born ++ calls) else returned (born ++ calls) (destroy_live l)

unfoldable pub begin_robot :
    {Frame : Type 0} → Sockets → Option Options → Birth → Answers → Exit Frame
begin_robot sys none b a = without_robot
begin_robot sys (some o) b a = serve sys o b a

-- `atoi` is the C library's.
unfoldable pub main :
    {Frame : Type 0}
    → (List ℕ → ℤ)
    → Sockets
    → List (List ℕ)
    → Birth
    → Answers
    → Outcome (Exit Frame)
main atoi sys argv b a = robot_options atoi argv >>= λ o. ok (begin_robot sys o b a)
