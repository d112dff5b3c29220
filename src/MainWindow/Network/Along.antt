-- ===== src/MainWindow/Network/Along.antt =====
-- Runs of the window of BaseStation/BaseStation/MainWindow.xaml.cs and of the robot of
-- Robot/src/BLER.cpp over the network, a move at a time.
use mathlib.Core.List.{Memᴰ}
use mathlib.Core.List.Memᴰ.{head}
use mathlib.Core.List.Memᴰ
use lame.Prelude.{All, ℕ, ◌≡◌, refl, true, List, [], ◌∷◌, ◌++◌, Option, some, ok}
use lame.Bler.State.{Sockets, SockAddr, Bler}
use lame.Bler.Sending.{Event, udp_write}
use lame.Bler.Udp.{Surroundings, datagram, Round, udp_round}
use lame.MainWindow.State.{DriveMode, Window}
use lame.MainWindow.Receive.{packet_received}
use lame.MainWindow.Connect.{worker_round}
use lame.MainWindow.Buttons.{go_button_clicked}
use lame.MainWindow.Exchange.Steps.{same_addr_refl}
use lame.MainWindow.Network.Lists.{All-member, All-weaken}
use lame.MainWindow.Network.{
  Net, sent_to, begin, after_sending, works, presses, answers, arrives, Reach, next,
}

sent_to_here :
    (there addr : SockAddr) (bytes : List ℕ) (events : List Event) (rest : List (List ℕ))
    → addr ≡ there
    → events ≡ udp_write bytes addr ∷ []
    → Memᴰ bytes (sent_to there events ++ rest)
unfolding sent_to
sent_to_here there addr bytes events rest same e = rw (e, same, same_addr_refl there) (head refl)

module _ {Frame : Type 0} (imencode : Frame → ℕ → Option (List ℕ)) (sys : Sockets)
    (station robot_addr : SockAddr) where
  -- A state that the network reaches from the robot `r`, in which the window is `w` and the robot
  -- `r'`, and some of the datagrams that were sent.
  pub record Along (r : Bler Frame) (w : Window) (r' : Bler Frame) (ins outs : List (List ℕ))
      : Type 0 where
    pub net : Net Frame
    pub reached : Reach imencode sys station robot_addr (begin r) net
    pub window : net.window ≡ w
    pub robot : net.robot ≡ r'
    pub asked : All (λ bytes. Memᴰ bytes net.to_robot) ins
    pub told : All (λ bytes. Memᴰ bytes net.to_window) outs

module _ {Frame : Type 0} {imencode : Frame → ℕ → Option (List ℕ)} {sys : Sockets}
    {station robot_addr : SockAddr} where
  pub Along-works :
      (r : Bler Frame) (w w' : Window) (r' : Bler Frame) (ins outs : List (List ℕ))
      (events : List Event)
      → worker_round w w.worker ≡ ok (w', events)
      → Along imencode sys station robot_addr r w r' ins outs
      → Along imencode sys station robot_addr r w' r' ins outs
  Along-works r w w' r' ins outs events e a = record {
    net = after_sending imencode sys station robot_addr a.net w' events;
    reached = next a.reached (works w' events (rw (a.window, e)));
    window = refl;
    robot = a.robot;
    asked = All-weaken _ _ ins (λ bytes m. Memᴰ.append_right (sent_to robot_addr events) m) a.asked;
    told = a.told;
  }

  -- A round that sends a datagram to the robot.
  pub Along-sends :
      (r : Bler Frame) (w w' : Window) (r' : Bler Frame) (outs : List (List ℕ)) (bytes : List ℕ)
      → worker_round w w.worker ≡ ok (w', udp_write bytes robot_addr ∷ [])
      → Along imencode sys station robot_addr r w r' [] outs
      → Along imencode sys station robot_addr r w' r' (bytes ∷ []) outs
  Along-sends r w w' r' outs bytes e a =
      let events = udp_write bytes robot_addr ∷ [] in
      record {
        net = after_sending imencode sys station robot_addr a.net w' events;
        reached = next a.reached (works w' events (rw (a.window, e)));
        window = refl;
        robot = a.robot;
        asked = (sent_to_here robot_addr robot_addr bytes events a.net.to_robot refl refl, tt);
        told = a.told;
      }

  pub Along-answers :
      (r : Bler Frame) (w w' : Window) (r' : Bler Frame) (ins outs : List (List ℕ)) (bytes : List ℕ)
      (now : ℕ)
      → Memᴰ bytes outs
      → w.receiving ≡ true
      → packet_received w (some bytes) now ≡ ok w'
      → Along imencode sys station robot_addr r w r' ins outs
      → Along imencode sys station robot_addr r w' r' ins outs
  Along-answers r w w' r' ins outs bytes now there listens e a = record {
    net = record a.net { window = w' };
    reached = next a.reached (
        answers w' now bytes (All-member _ bytes outs a.told there) (rw (a.window, listens))
          (rw (a.window, e)));
    window = refl;
    robot = a.robot;
    asked = a.asked;
    told = a.told;
  }

  pub Along-presses :
      (r : Bler Frame) (w w' : Window) (r' : Bler Frame) (ins outs : List (List ℕ))
      (addr : Option SockAddr) (mode : Option DriveMode)
      → go_button_clicked w addr mode ≡ w'
      → Along imencode sys station robot_addr r w r' ins outs
      → Along imencode sys station robot_addr r w' r' [] outs
  Along-presses r w w' r' ins outs addr mode e a = record {
    net = record a.net { window = go_button_clicked a.net.window addr mode };
    reached = next a.reached (presses addr mode);
    window = rw (a.window, e);
    robot = a.robot;
    asked = tt;
    told = a.told;
  }

  -- The robot takes the datagram, and answers to the window.
  pub Along-arrives :
      (r : Bler Frame) (w : Window) (r' : Bler Frame) (outs : List (List ℕ)) (bytes reply : List ℕ)
      (env : Surroundings) (P : Bler Frame → Type 0)
      → ((read_buffer : List ℕ)
          → (after : Round Frame) × (udp_round imencode sys r' read_buffer env
                (datagram bytes station)
              ≡ ok after)
            × P after.robot
            × (after.events ≡ udp_write reply station ∷ []))
      → Along imencode sys station robot_addr r w r' (bytes ∷ []) outs
      → (r'' : Bler Frame) × P r'' × Along imencode sys station robot_addr r w r'' [] (reply ∷ outs)
  Along-arrives r w r' outs bytes reply env P answer a =
      let (after, received, holds, sent) = answer a.net.read_buffer in
      (
        after.robot,
        holds,
        record {
          net = record a.net {
            robot = after.robot;
            read_buffer = after.read_buffer;
            to_window = sent_to station after.events ++ a.net.to_window;
          };
          reached = next a.reached (arrives env bytes after a.asked.0 (rw (a.robot, received)));
          window = a.window;
          robot = refl;
          asked = tt;
          told = (
            sent_to_here station station reply after.events a.net.to_window refl sent,
            All-weaken _ _ outs (λ b m. Memᴰ.append_right (sent_to station after.events) m) a.told,
          );
        },
      )
