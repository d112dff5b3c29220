-- ===== src/MainWindow/Exchange/Handshake.antt =====
-- How `ConnectingWorker` of BaseStation/BaseStation/MainWindow.xaml.cs takes remote control.
use lame.Prelude.{ℕ, ◌≡◌, refl, ap, ◌∙◌, Bool, true, false, List, [], ◌∷◌, Option, none, some, ok}
use lame.Packet.Opcodes.{remote_switch_opcode, switch_mode_ack_opcode}
use lame.Packet.Create.Fixed.{wire}
use lame.Bler.State.{Sockets, SockAddr, remote as in_remote, Bler}
use lame.Bler.Sending.{udp_write}
use lame.Bler.Udp.{Surroundings, Round, is_from_ai, note_sender}
use lame.Bler.Udp.Sender.{note_sender-Noted, is_from_ai-ai_addr}
use lame.Bler.Udp.Replies.{udp_round-remote_switch}
use lame.PacketHandler.Wire.{get_remote_switch_packet_lem}
use lame.MainWindow.State.{remote, Window, send}
use lame.MainWindow.Receive.{on_opcode}
use lame.MainWindow.Connect.{mode_packet, set_drive_mode, work, worker_round}
use lame.MainWindow.Buttons.{go_button_clicked}
use lame.MainWindow.Exchange.{Pair, exchange, exchanges}
use lame.MainWindow.Exchange.Steps.{
  setting, connecting, go_button_clicked-connecting, deliver_back-wire, pair_of, exchange-sent,
  exchange-query, exchange-heard,
}

-- The window after the thread is done.
abbrev pub connected : SockAddr → Bool → Option ℕ → Window
connected endpoint closing last = record {
  current_drive_mode = remote;
  robot_packet_endpoint = some endpoint;
  window_closing = closing;
  receiving = true;
  is_connected = true;
  received_drive_mode_ack = true;
  last_heartbeat_received = last;
  worker = none;
}

module _ {Frame : Type 0} (imencode : Frame → ℕ → Option (List ℕ)) (sys : Sockets)
    (station endpoint : SockAddr) (closing : Bool) where
  -- The window that asks, and the one that comes of it.
  after_ask : Bool → Option ℕ → Window
  after_ask false last = connecting remote endpoint closing false last setting
  after_ask true last = connected endpoint closing last

  after_ack : Bool → Option ℕ → Window
  after_ack false last = connecting remote endpoint closing true last setting
  after_ack true last = connected endpoint closing last

  hears : (ack : Bool) (last : Option ℕ) → (after_ask ack last).receiving ≡ true
  unfolding after_ask
  hears false last = refl
  hears true last = refl

  asks :
      (ack : Bool) (last : Option ℕ)
      → work (connecting remote endpoint closing ack last setting) setting
        ≡ ok (after_ask ack last, udp_write (wire remote_switch_opcode) endpoint ∷ [])
  unfolding work set_drive_mode mode_packet send after_ask
  asks false last = rw get_remote_switch_packet_lem
  asks true last = rw get_remote_switch_packet_lem

  acks :
      (ack : Bool) (last : Option ℕ) (now : ℕ)
      → on_opcode (after_ask ack last) switch_mode_ack_opcode now ≡ after_ack ack last
  unfolding on_opcode after_ask after_ack
  acks false last now = refl
  acks true last now = refl

  -- The thread asks for remote mode; the robot takes it up and acknowledges. With the
  -- acknowledgement the thread is done.
  exchange-ask :
      (ack : Bool) (last : Option ℕ) (r : Bler Frame) (read_buffer : List ℕ) (env : Surroundings)
      → is_from_ai sys r station ≡ false
      → (after : Round Frame) × (exchange imencode sys station
            (record {
              window = connecting remote endpoint closing ack last setting;
              robot = r;
              read_buffer = read_buffer;
            })
            env
          ≡ ok (pair_of imencode sys station (after_ack ack last) after))
        × (after.robot.current_mode ≡ in_remote)
        × (after.robot.ai_addr ≡ r.ai_addr)
        × (after.robot.base_station_addr ≡ station)
  unfolding worker_round
  exchange-ask ack last r read_buffer env foreign =
      let (after, received, _, mode, peer, base, answer) =
        udp_round-remote_switch imencode sys r read_buffer station env in
      let noted : (note_sender sys r station).base_station_addr ≡ station =
        (rw foreign at ((note_sender-Noted sys r station).base)) in
      (
        after,
        exchange-sent imencode sys station _ (after_ask ack last) _ (wire remote_switch_opcode)
            endpoint env after (asks ack last) received
            (deliver_back-wire station (note_sender sys r station).base_station_addr
                (after_ask ack last) switch_mode_ack_opcode env.now after.events noted
                (hears ack last) answer
              ∙ ap ok (acks ack last env.now)),
        mode,
        peer,
        base ∙ noted,
      )

-- Over a network that loses nothing, four rounds of the thread are enough: whoever presses the
-- button for remote drive in a window that still receives, unconnected and with no thread alive, is
-- connected, the robot is in remote mode, whatever mode it was in, and answers to the window. The window must not have the
-- address that the robot expects the AI at.
pub exchanges-connected :
    {Frame : Type 0} (imencode : Frame → ℕ → Option (List ℕ)) (sys : Sockets)
    (station endpoint : SockAddr) (w : Window) (r : Bler Frame) (read_buffer : List ℕ)
    (env0 env1 env2 env3 : Surroundings)
    → w.is_connected ≡ false
    → w.worker ≡ none
    → w.receiving ≡ true
    → is_from_ai sys r station ≡ false
    → (last : Pair Frame) × (exchanges imencode sys station
          (record {
            window = go_button_clicked w (some endpoint) (some remote);
            robot = r;
            read_buffer = read_buffer;
          })
          (env0 ∷ env1 ∷ env2 ∷ env3 ∷ [])
        ≡ ok last)
      × (last.window.is_connected ≡ true)
      × (last.window.worker ≡ none)
      × (last.window.current_drive_mode ≡ remote)
      × (last.robot.current_mode ≡ in_remote)
      × (last.robot.base_station_addr ≡ station)
unfolding exchanges after_ack
exchanges-connected imencode sys station endpoint w r b env0 env1 env2 env3 off idle listens
      foreign =
    let c = w.window_closing in
    let (a0, e0, calm) = exchange-query imencode sys station remote endpoint c r b env0 in
    let e1 =
      exchange-heard imencode sys station remote endpoint c a0.robot a0.read_buffer env1 env0.now in
    let (a2, e2, mode2, peer2, base2) =
      exchange-ask imencode sys station endpoint c false (some env0.now) a0.robot a0.read_buffer
        env2 (is_from_ai-ai_addr sys r a0.robot station calm.ai_addr ∙ foreign) in
    let (a3, e3, mode3, peer3, base3) =
      exchange-ask imencode sys station endpoint c true (some env0.now) a2.robot a2.read_buffer env3
        (is_from_ai-ai_addr sys r a2.robot station (peer2 ∙ calm.ai_addr) ∙ foreign) in
    (
      pair_of imencode sys station (connected endpoint c (some env0.now)) a3,
      rw (go_button_clicked-connecting w endpoint remote off idle listens, e0, e1, e2, e3),
      refl,
      refl,
      refl,
      mode3,
      base3,
    )
