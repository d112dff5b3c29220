-- ===== src/MainWindow/Network/Honest.antt =====
-- What every move of the window of BaseStation/BaseStation/MainWindow.xaml.cs, of the robot of
-- Robot/src/BLER.cpp and of the network between them keeps.
use lame.Prelude.{
  arith, ℕ, ◌≡◌, ◌⊎◌, inl, inr, sym, ◌∙◌, List, ◌++◌, Option, length, All, All-append, ok,
  ok-injective,
}
use lame.Bler.State.{Sockets, SockAddr}
use lame.Bler.Sending.{Event}
use lame.Bler.Camera.Frames.{camera_read_round-FramesOnly}
use lame.Bler.Udp.{Surroundings, datagram, Round, udp_round}
use lame.Bler.Udp.Obeys.{IsReply, Obeyed, udp_round-sent_bytes, udp_round-nothing}
use lame.Packet.Opcodes.{drive_opcode}
use lame.Packet.Payloads.{DrivePayload}
use lame.Packet.Create.Packets.{drive_body}
use lame.Bler.Udp.Deliver.{udp_round-drive}
use lame.Bler.Execute.Drive.{drive_bytes}
use lame.MainWindow.Joystick.Flown.{Flown-IsPilot}
use lame.MainWindow.Network.Ranged.{InRange}
use lame.MainWindow.State.{Window}
use lame.MainWindow.Network.Lists.{All-member, All-weaken}
use lame.MainWindow.Network.{
  Net, sent_to, after_sending, Move, works, flies, asks, presses, closes, breaks, answers, arrives,
  films, Reach, here, next,
}
use lame.MainWindow.Network.Ours.{
  IsOurs, nothing, driving, packet, EventOurs, worker_round-Ours, pilot_round-Ours, on_input-Ours,
}
use lame.MainWindow.Network.Sent.{sent_to-Ours, sent_to-IsReply, IsReply-later}
use lame.MainWindow.Network.Knows.{
  Knows, Knows-later, go_button_clicked-Knows, close_window-Knows, worker_round-Knows,
  packet_received-Knows, packet_received-none-Knows,
}

unfoldable pub IsAllowed : DrivePayload → DrivePayload → Type 0
IsAllowed first p = (p ≡ first) ⊎ InRange p

-- The array has its size, each datagram on the way is what its sender sends, an acknowledgement says
-- the truth, and the window knows it.
-- `first` is the payload that the robot began with.
pub record IsHonest {Frame : Type 0} (first : DrivePayload) (s : Net Frame) : Type 0 where
  pub drives : IsAllowed first s.robot.latest_drive_payload
  pub size : length s.read_buffer ≡ 64
  pub asked : All IsOurs s.to_robot
  pub told : All (IsReply s.robot.current_mode) s.to_window
  pub knows : Knows s.robot.current_mode s.window

module _ {Frame : Type 0} (imencode : Frame → ℕ → Option (List ℕ)) (sys : Sockets)
    (station robot_addr : SockAddr) (first : DrivePayload) where
  sending-IsHonest :
      (s : Net Frame) (w : Window) (events : List Event)
      → All EventOurs events
      → Knows s.robot.current_mode w
      → IsHonest first s
      → IsHonest first (after_sending imencode sys station robot_addr s w events)
  sending-IsHonest s w events ours knows k = record {
    drives = k.drives;
    size = k.size;
    asked = All-append IsOurs _ s.to_robot (sent_to-Ours robot_addr events ours) k.asked;
    told = k.told;
    knows = knows;
  }

  -- The window has moved without sending.
  moving-IsHonest :
      (s : Net Frame) (w : Window)
      → Knows s.robot.current_mode w
      → IsHonest first s
      → IsHonest first (record s { window = w })
  moving-IsHonest s w knows k = record {
    drives = k.drives;
    size = k.size;
    asked = k.asked;
    told = k.told;
    knows = knows;
  }

  -- The robot takes a datagram of the window's.
  abbrev Taken : Net Frame → Surroundings → List ℕ → Type 0
  Taken s env bytes =
      (after : Round Frame) × (op : ℕ) × (udp_round imencode sys s.robot s.read_buffer env
          (datagram bytes station)
        ≡ ok after)
      × (length after.read_buffer ≡ 64)
      × Obeyed op s.robot after.robot after.events
      × ((after.robot.latest_drive_payload ≡ s.robot.latest_drive_payload)
          ⊎ InRange after.robot.latest_drive_payload)

  -- A drive packet.
  udp_round-driving :
      (s : Net Frame) (env : Surroundings) (p : DrivePayload)
      → InRange p
      → length s.read_buffer ≡ 64
      → Taken s env (drive_bytes p)
  udp_round-driving s env p within size =
      let (after, received, size', o) =
        udp_round-sent_bytes imencode sys s.robot s.read_buffer station env size drive_opcode
          (drive_body p) (omega arith) (λ e. absurd (omega (arith, e)))
          (λ e. absurd (omega (arith, e))) in
      let (after', received', robot, _) =
        udp_round-drive imencode sys s.robot s.read_buffer station env p in
      let same : after' ≡ after = ok-injective (sym received' ∙ received) in
      (after, drive_opcode, received, size', o, inr (rw (← same, robot) within))

  udp_round-IsOurs :
      (s : Net Frame) (env : Surroundings) (bytes : List ℕ)
      → IsOurs bytes
      → length s.read_buffer ≡ 64
      → Taken s env bytes
  udp_round-IsOurs s env bytes (driving p e within) size =
      rw e (udp_round-driving s env p within size)
  udp_round-IsOurs s env bytes (nothing e) size =
      let (after, received, size', o) =
        udp_round-nothing imencode sys s.robot s.read_buffer station env size in
      (
        after,
        0,
        rw e received,
        size',
        o,
        elim o.payload [ inl kept ↦ inl kept | inr drive ↦ absurd (omega (arith, drive)) ],
      )
  udp_round-IsOurs s env bytes (packet op body e short a d v) size =
      let (after, received, size', o) =
        udp_round-sent_bytes imencode sys s.robot s.read_buffer station env size op body short a
          d in
      (
        after,
        op,
        rw e received,
        size',
        o,
        elim o.payload [ inl kept ↦ inl kept | inr drive ↦ absurd (v drive) ],
      )

  later-IsAllowed :
      (p q : DrivePayload) → (q ≡ p) ⊎ InRange q → IsAllowed first p → IsAllowed first q
  unfolding IsAllowed
  later-IsAllowed p q (inl same) allowed = rw same allowed
  later-IsAllowed p q (inr within) allowed = inr within

  arriving-IsHonest :
      (s : Net Frame) (after : Round Frame) (op : ℕ)
      → length after.read_buffer ≡ 64
      → Obeyed op s.robot after.robot after.events
      → (after.robot.latest_drive_payload ≡ s.robot.latest_drive_payload)
        ⊎ InRange after.robot.latest_drive_payload
      → IsHonest first s
      → IsHonest first (record s {
        robot = after.robot;
        read_buffer = after.read_buffer;
        to_window = sent_to station after.events ++ s.to_window;
      })
  arriving-IsHonest s after op size o payload k = record {
    drives =
        later-IsAllowed s.robot.latest_drive_payload after.robot.latest_drive_payload payload
          k.drives;
    size = size;
    asked = k.asked;
    told =
        All-append (IsReply after.robot.current_mode) _ s.to_window
          (sent_to-IsReply station after.robot.current_mode after.events o.answers)
          (All-weaken (IsReply s.robot.current_mode) (IsReply after.robot.current_mode) s.to_window
            (λ bytes. IsReply-later s.robot.current_mode after.robot.current_mode bytes o.mode)
            k.told);
    knows = Knows-later s.robot.current_mode after.robot.current_mode s.window o.mode k.knows;
  }

  Move-IsHonest :
      (s t : Net Frame)
      → IsHonest first s
      → Move imencode sys station robot_addr s t
      → IsHonest first t
  Move-IsHonest s t k (works w events e) =
      sending-IsHonest s w events (rw e at (worker_round-Ours s.window s.window.worker))
        (rw e at (worker_round-Knows s.robot.current_mode s.window s.window.worker k.knows)) k
  Move-IsHonest s t k (flies xbox now p p' events promised flown e) =
      sending-IsHonest s s.window events
        (rw e at (pilot_round-Ours xbox now s.window p promised (Flown-IsPilot p flown))) k.knows k
  Move-IsHonest s t k (asks input events e) =
      sending-IsHonest s s.window events (rw e at (on_input-Ours s.window input)) k.knows k
  Move-IsHonest s t k (presses addr mode) =
      moving-IsHonest s _ (go_button_clicked-Knows s.robot.current_mode s.window addr mode k.knows)
        k
  Move-IsHonest s t k closes =
      moving-IsHonest s _ (close_window-Knows s.robot.current_mode s.window k.knows) k
  Move-IsHonest s t k (breaks w now listens e) =
      moving-IsHonest s w
        (rw e at (packet_received-none-Knows s.robot.current_mode s.window now k.knows)) k
  Move-IsHonest s t k (answers w now bytes there listens e) =
      moving-IsHonest s w
        (rw e at (
          packet_received-Knows s.robot.current_mode s.window bytes now
            (All-member (IsReply s.robot.current_mode) bytes s.to_window k.told there) k.knows))
        k
  Move-IsHonest s t k (arrives env bytes after there e) =
      let (after', op, e', size, o, payload) =
        udp_round-IsOurs s env bytes (All-member IsOurs bytes s.to_robot k.asked there) k.size in
      let same : after' ≡ after = ok-injective (sym e' ∙ e) in
      arriving-IsHonest s after op (rw same at size) (rw same at o) (rw same at payload) k
  Move-IsHonest s t k (films img img1) =
      let k' = camera_read_round-FramesOnly s.robot img img1 in
      let mode = k'.mode in
      record {
        drives = rw k'.payload k.drives;
        size = k.size;
        asked = k.asked;
        told = rw mode k.told;
        knows = rw mode k.knows;
      }

  pub Reach-IsHonest :
      (s t : Net Frame)
      → IsHonest first s
      → Reach imencode sys station robot_addr s t
      → IsHonest first t
  Reach-IsHonest s t k here = k
  Reach-IsHonest s t k (next {t = m} before move) =
      Move-IsHonest m t (Reach-IsHonest s m k before) move
