-- ===== src/MainWindow/Network/Stale.antt =====
-- A second acknowledgement that reaches `MainWindow` of BaseStation/BaseStation/MainWindow.xaml.cs
-- after another mode was asked for: `receivedDriveModeAck` does not say of which mode.
use mathlib.Core.List.Memᴰ.{head, tail}
use lame.Prelude.{ℕ, ◌≡◌, refl, ◌∙◌, true, false, List, [], ◌∷◌, Option, none, some, ok}
use lame.Packet.Opcodes.{
  query_heartbeat_opcode, report_heartbeat_opcode, remote_switch_opcode, switch_mode_ack_opcode,
}
use lame.Packet.Create.Fixed.{wire}
use lame.Bler.State.{Sockets, SockAddr, Bler, remote as in_remote}
use lame.Bler.Sending.{udp_write}
use lame.Bler.Udp.{Surroundings, datagram, Round, is_from_ai, note_sender, udp_round}
use lame.Bler.Udp.Sender.{note_sender-Noted, is_from_ai-ai_addr}
use lame.Bler.Udp.Replies.{IsCalm, udp_round-query_heartbeat, udp_round-remote_switch}
use lame.MainWindow.State.{DriveMode, remote, construct}
use lame.MainWindow.Receive.{on_opcode}
use lame.MainWindow.Exchange.Steps.{querying, setting, connecting, go_button_clicked-connecting}
use lame.MainWindow.Network.{Net, begin, Reach, here}
use lame.MainWindow.Network.Rounds.{
  settled, works-query, works-heard, works-done, answers-wire, works-waiting, answers-ack,
  pressed-settled,
}
use lame.MainWindow.Network.Along.{
  Along, Along-works, Along-sends, Along-answers, Along-presses, Along-arrives,
}

module _ {Frame : Type 0} (imencode : Frame → ℕ → Option (List ℕ)) (sys : Sockets)
    (station robot_addr : SockAddr) where
  -- The robot's address for its answers, and its mode.
  query-answered :
      (r : Bler Frame) (read_buffer : List ℕ) (env : Surroundings)
      → (after : Round Frame) × (udp_round imencode sys r read_buffer env
            (datagram (wire query_heartbeat_opcode) station)
          ≡ ok after)
        × IsCalm r after.robot
        × (after.events ≡ udp_write (wire report_heartbeat_opcode) station ∷ [])
  query-answered r read_buffer env =
      udp_round-query_heartbeat imencode sys r read_buffer station env

  switch-answered :
      (r : Bler Frame) (read_buffer : List ℕ) (env : Surroundings)
      → is_from_ai sys r station ≡ false
      → (after : Round Frame) × (udp_round imencode sys r read_buffer env
            (datagram (wire remote_switch_opcode) station)
          ≡ ok after)
        × (after.robot.current_mode ≡ in_remote)
        × (after.events ≡ udp_write (wire switch_mode_ack_opcode) station ∷ [])
  switch-answered r read_buffer env foreign =
      let (after, received, _, mode, peer, base, answer) =
        udp_round-remote_switch imencode sys r read_buffer station env in
      let noted : (note_sender sys r station).base_station_addr ≡ station =
        (rw foreign at ((note_sender-Noted sys r station).base)) in
      (after, received, mode, rw noted at answer)

  module _ (r : Bler Frame) (env : Surroundings) (foreign : is_from_ai sys r station ≡ false) where
    -- Until the window knows of the robot.
    introduced :
        (r' : Bler Frame) × IsCalm r r'
        × Along imencode sys station robot_addr r
            (connecting remote robot_addr false false (some env.now) setting)
            r'
            []
            (wire report_heartbeat_opcode ∷ [])
    unfolding construct on_opcode
    introduced =
        let asking = connecting remote robot_addr false false in
        let opened : Along imencode sys station robot_addr r construct r [] [] = record {
          net = begin r;
          reached = here;
          window = refl;
          robot = refl;
          asked = tt;
          told = tt;
        } in
        let pressed =
          Along-presses r construct (asking none querying) r [] [] (some robot_addr) (some remote)
            (go_button_clicked-connecting construct robot_addr remote refl refl refl) opened in
        let queried =
          Along-sends r _ (asking none querying) r [] (wire query_heartbeat_opcode)
            (works-query remote robot_addr) pressed in
        let (r1, calm, told) =
          Along-arrives r _ r [] _ (wire report_heartbeat_opcode) env (IsCalm r)
            (λ b. query-answered r b env) queried in
        let heard =
          Along-answers r _ (asking (some env.now) querying) r1 [] _ _ env.now (head refl) refl
            (answers-wire remote robot_addr false none report_heartbeat_opcode env.now) told in
        (
          r1,
          calm,
          Along-works r _ (asking (some env.now) setting) r1 [] _ []
              (works-heard remote robot_addr false env.now) heard,
        )

    -- Until the window is connected in remote mode.
    settles :
        (r' : Bler Frame) × (r'.current_mode ≡ in_remote)
        × Along imencode sys station robot_addr r
            (settled remote robot_addr (some env.now))
            r'
            []
            (wire switch_mode_ack_opcode ∷ wire report_heartbeat_opcode ∷ [])
    settles =
        let (r1, calm, sets) = introduced in
        let asking = connecting remote robot_addr false in
        let asked =
          Along-sends r _ (asking false (some env.now) setting) r1 _ (wire remote_switch_opcode)
            (works-waiting robot_addr (some env.now)) sets in
        let (r2, mode, acked) =
          Along-arrives r _ r1 _ _ (wire switch_mode_ack_opcode) env
            (λ (x : Bler Frame). x.current_mode ≡ in_remote)
            (λ b.
              switch-answered r1 b env (is_from_ai-ai_addr sys r r1 station calm.ai_addr ∙ foreign))
            asked in
        let knows =
          Along-answers r _ (asking true (some env.now) setting) r2 [] _ _ env.now (head refl) refl
            (answers-ack robot_addr (some env.now) env.now) acked in
        let (bytes, done) = works-done remote robot_addr (some env.now) in
        (r2, mode, Along-works r _ (settled remote robot_addr (some env.now)) r2 [] _ _ done knows)

    -- From a window just opened and any robot that does not take the window for the AI, there is a
    -- state for each mode of the window's list in which the window counts as connected in that mode
    -- while the robot is in remote mode.
    pub Reach-stale :
        (mode : DriveMode)
        → (s : Net Frame) × Reach imencode sys station robot_addr (begin r) s
          × (s.window.is_connected ≡ true)
          × (s.window.current_drive_mode ≡ mode)
          × (s.window.worker ≡ none)
          × (s.robot.current_mode ≡ in_remote)
    unfolding on_opcode
    Reach-stale mode =
        let (r', remote_drive, done) = settles in
        let asking = connecting mode robot_addr false in
        let pressed =
          Along-presses r _ (asking false none querying) r' [] _ none (some mode)
            (pressed-settled mode robot_addr (some env.now)) done in
        let heard =
          Along-answers r _ (asking false (some env.now) querying) r' [] _ _ env.now
            (tail (head refl)) refl
            (answers-wire mode robot_addr false none report_heartbeat_opcode env.now) pressed in
        let acked =
          Along-answers r _ (asking true (some env.now) querying) r' [] _ _ env.now (head refl) refl
            (answers-wire mode robot_addr false (some env.now) switch_mode_ack_opcode env.now)
            heard in
        let sets =
          Along-works r _ (asking true (some env.now) setting) r' [] _ []
            (works-heard mode robot_addr true env.now) acked in
        let (bytes, finished) = works-done mode robot_addr (some env.now) in
        let end =
          Along-works r _ (settled mode robot_addr (some env.now)) r' [] _ _ finished sets in
        (
          end.net,
          end.reached,
          rw end.window refl,
          rw end.window refl,
          rw end.window refl,
          rw end.robot remote_drive,
        )
