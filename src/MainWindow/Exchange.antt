-- ===== src/MainWindow/Exchange.antt =====
-- `ConnectingWorker` of BaseStation/BaseStation/MainWindow.xaml.cs and the robot of
-- Robot/src/BLER.cpp, over a network that loses nothing.
pub mod Steps
pub mod Handshake
pub mod Refusal
pub mod Deaf
use lame.Prelude.{
  ℕ, Bool, ◌&&◌, ◌==◌, List, [], ◌∷◌, Option, none, some, Outcome, ok, ◌>>=◌, if◌then◌else◌,
}
use lame.Bler.State.{Sockets, SockAddr, Bler}
use lame.Bler.Sending.{Event, serial_write, udp_write, tcp_write}
use lame.Bler.Udp.{Surroundings, datagram, Round, udp_round}
use lame.MainWindow.State.{Window}
use lame.MainWindow.Receive.{packet_received}
use lame.MainWindow.Connect.{worker_round}

-- The two programs, and the robot's receive array.
pub record Pair (Frame : Type 0) : Type 0 where
  pub window : Window
  pub robot : Bler Frame
  pub read_buffer : List ℕ

pub same_addr : SockAddr → SockAddr → Bool
same_addr a b = a.sin_family == b.sin_family && (a.s_addr == b.s_addr && a.sin_port == b.sin_port)

-- A datagram for the address `station` arrives at the window there, while it receives, any other does not.
pub receive_at : SockAddr → Window → List ℕ → SockAddr → ℕ → Outcome Window
receive_at station w bytes addr now =
    if same_addr addr station && w.receiving then packet_received w (some bytes) now else ok w

-- What the robot has sent is delivered to the window.
pub deliver_back : SockAddr → Window → List Event → ℕ → Outcome Window
deliver_back station w [] now = ok w
deliver_back station w (serial_write bytes ∷ events) now = deliver_back station w events now
deliver_back station w (tcp_write bytes addr ∷ events) now = deliver_back station w events now
deliver_back station w (udp_write bytes addr ∷ events) now =
    receive_at station w bytes addr now >>= λ w'. deliver_back station w' events now

module _ {Frame : Type 0} (imencode : Frame → ℕ → Option (List ℕ)) (sys : Sockets)
    (station : SockAddr) where
  -- What the window sent arrives at the robot, from the address `station`, and is answered.
  pub deliver : Pair Frame → List Event → Surroundings → Outcome (Pair Frame)
  deliver p [] env = ok p
  deliver p (serial_write bytes ∷ events) env = deliver p events env
  deliver p (tcp_write bytes addr ∷ events) env = deliver p events env
  deliver p (udp_write bytes addr ∷ events) env =
      udp_round imencode sys p.robot p.read_buffer env (datagram bytes station) >>= λ after.
      deliver_back station p.window after.events env.now >>= λ w.
      deliver (record { window = w; robot = after.robot; read_buffer = after.read_buffer }) events
        env

  -- A round of the thread, and all that it causes.
  pub exchange : Pair Frame → Surroundings → Outcome (Pair Frame)
  exchange p env =
      worker_round p.window p.window.worker >>= λ s. deliver (record p { window = s.0 }) s.1 env

  pub exchanges : Pair Frame → List Surroundings → Outcome (Pair Frame)
  exchanges p [] = ok p
  exchanges p (env ∷ envs) = exchange p env >>= λ p'. exchanges p' envs
