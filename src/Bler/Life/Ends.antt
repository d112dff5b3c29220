-- ===== src/Bler/Life/Ends.antt =====
-- How `main` of Robot/src/main.cpp ends, and the descriptors that the robot's object has left open
-- then.
use lame.Prelude.{
  ℕ, zero, suc, ◌+◌, ◌≡◌, arith, refl, Bool, true, false, List, [], ◌∷◌, ◌++◌, Option, none, some,
  ok, if◌then◌else◌, inl, inr, Bool-cases,
}
use lame.Prelude.Int.{ℤ, pos, negsuc, ltb_ℤ}
use lame.CommandLine.{Options, robot_options}
use lame.Bler.State.{Sockets}
use lame.Bler.Startup.{serial_read, udp_read, execute, camera_read, camera_send, runs, run}
use lame.Bler.Shutdown.{shut_down, joined, unjoined}
use lame.Devices.Calls.{Call, tally, acquisitions, closings}
use lame.Devices.SerialPort.{SerialPort, open_port, close_port}
use lame.Devices.SerialPort
use lame.Devices.UdpSocket.{UdpSocket, is_invalid, open_socket, close_socket}
use lame.Devices.UdpSocket
use lame.Bler.Life.{
  Live, Birth, Answers, make, run_live, died, destroy_members, destroy_live, Exit, without_robot,
  returned, serving, serve, begin_robot, main,
}

-- How often the descriptor `g` is that of a socket that was made and that `bind` refused.
abbrev pub refused_sockets : ℤ → Answers → ℕ
refused_sockets g a =
    if is_invalid a.sock_handle then 0 else (if a.binds then 0 else tally g a.sock_handle)

-- Either the robot runs with both descriptors open, or nothing was left running and every
-- descriptor is closed as often as it was acquired, but that of a refused socket.
pub data Settled {Frame : Type 0} (a : Answers) (e : Exit Frame) : Type 0 where
  runs_on :
      (l : Live Frame) (calls : List Call)
      → e ≡ serving l calls
      → l.robot.is_running ≡ true
      → l.threads ≡ serial_read ∷ udp_read ∷ execute ∷ camera_read ∷ camera_send ∷ []
      → l.serial_port.opened ≡ true
      → l.socket.is_open ≡ true
      → ((g : ℤ)
          → acquisitions g calls
            ≡ closings g calls + tally g l.serial_port.handle + tally g l.socket.handle)
      → Settled a e
  gave_up :
      (calls later : List Call)
      → e ≡ returned calls (died later)
      → ((g : ℤ)
          → acquisitions g (calls ++ later) ≡ closings g (calls ++ later) + refused_sockets g a)
      → Settled a e

abbrev found : ℤ → Bool → ℤ → Bool → Answers
found sock binds fd sticks = record {
  sock_handle = sock;
  binds = binds;
  fd = fd;
  joysticks_initialize = sticks;
}

module _ {Frame : Type 0} (sys : Sockets) (o : Options) where
  -- A socket that was made, whatever its number.
  serve-socket :
      (b : Birth) (sock : ℤ) (binds : Bool) (fd : ℤ) (sticks : Bool)
      → is_invalid sock ≡ false
      → Settled {Frame = Frame}
          (found sock binds fd sticks)
          (serve sys o b (found sock binds fd sticks))
  unfolding serve make run_live destroy_live destroy_members run runs shut_down joined unjoined
      open_port close_port open_socket close_socket SerialPort.construct UdpSocket.construct
      SerialPort.destroy UdpSocket.destroy
  serve-socket b sock false fd sticks valid = elim (Bool-cases (ltb_ℤ b.fd (pos 0))) [
    | inr opened ↦ rw (valid, opened) (gave_up _ _ refl (rw valid (λ g. omega arith)))
    | inl failed ↦ rw (valid, failed) (gave_up _ _ refl (rw valid (λ g. omega arith)))
  ]
  serve-socket b sock true fd true valid = elim (Bool-cases (ltb_ℤ b.fd (pos 0))) [
    | inr opened ↦ rw (valid, opened) (runs_on _ _ refl refl refl refl refl (λ g. omega arith))
    | inl failed ↦ elim (Bool-cases (ltb_ℤ fd (pos 0))) [
      | inr later ↦
          rw (valid, failed, later) (runs_on _ _ refl refl refl refl refl (λ g. omega arith))
      | inl again ↦ rw (valid, failed, again) (gave_up _ _ refl (rw valid (λ g. omega arith)))
    ]
  ]
  serve-socket b sock true fd false valid = elim (Bool-cases (ltb_ℤ b.fd (pos 0))) [
    | inr opened ↦ rw (valid, opened) (gave_up _ _ refl (rw valid (λ g. omega arith)))
    | inl failed ↦ elim (Bool-cases (ltb_ℤ fd (pos 0))) [
      | inr later ↦ rw (valid, failed, later) (gave_up _ _ refl (rw valid (λ g. omega arith)))
      | inl again ↦ rw (valid, failed, again) (gave_up _ _ refl (rw valid (λ g. omega arith)))
    ]
  ]

  serve-found :
      (b : Birth) (sock : ℤ) (binds : Bool) (fd : ℤ) (sticks : Bool)
      → Settled {Frame = Frame}
          (found sock binds fd sticks)
          (serve sys o b (found sock binds fd sticks))
  unfolding serve make run_live destroy_live destroy_members run runs shut_down joined unjoined
      open_port close_port open_socket close_socket SerialPort.construct UdpSocket.construct
      SerialPort.destroy UdpSocket.destroy
  serve-found b (pos n) binds fd sticks = serve-socket b (pos n) binds fd sticks refl
  serve-found b (negsuc (suc n)) binds fd sticks =
      serve-socket b (negsuc (suc n)) binds fd sticks refl
  serve-found b (negsuc zero) binds fd sticks = elim (Bool-cases (ltb_ℤ b.fd (pos 0))) [
    | inr opened ↦ rw opened (gave_up _ _ refl (λ g. omega arith))
    | inl failed ↦ rw failed (gave_up _ _ refl (λ g. omega arith))
  ]

-- What becomes of `main`, by the options that it reads.
abbrev pub Ends : {Frame : Type 0} → Option Options → Answers → Exit Frame → Type 0
Ends none a e = e ≡ without_robot
Ends (some o) a e = Settled a e

-- Whatever the system answers: without a serial port in the arguments `main` returns with no robot.
-- With one, either the robot runs with five threads, the serial port and the socket open, or `main`
-- returns after destroying it without terminating a thread. Each single descriptor is closed as often
-- as it was acquired, but for those that the running robot holds, and but for that of a socket which
-- `bind` refused.
pub main_lem :
    {Frame : Type 0} (atoi : List ℕ → ℤ) (sys : Sockets) (argv : List (List ℕ)) (b : Birth)
    (a : Answers) (o : Option Options)
    → robot_options atoi argv ≡ ok o
    → (e : Exit Frame) × (main atoi sys argv b a ≡ ok e) × Ends o a e
unfolding main begin_robot
main_lem atoi sys argv b a none read = (without_robot, rw read, refl)
main_lem atoi sys argv b a (some o) read = (
  serve sys o b a,
  rw read,
  serve-found sys o b a.sock_handle a.binds a.fd a.joysticks_initialize,
)
