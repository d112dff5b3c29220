-- ===== src/MainWindow/Exchange/Refusal.antt =====
-- What `ConnectingWorker` of BaseStation/BaseStation/MainWindow.xaml.cs comes to in the other modes.
use lame.Prelude.{
  ℕ, ◌≡◌, ◌≢◌, refl, ap, ◌∙◌, Bool, true, false, List, [], ◌∷◌, Option, none, some, ok,
}
use lame.Packet.Opcodes.{ai_init_opcode}
use lame.Packet.Create.Fixed.{wire}
use lame.Bler.State.{Sockets, SockAddr, Bler}
use lame.Bler.Udp.{Surroundings, Round}
use lame.Bler.Udp.Replies.{IsCalm, udp_round-ai_init, udp_round-empty}
use lame.PacketHandler.Wire.{get_ai_init_packet_lem}
use lame.MainWindow.State.{DriveMode, direct, remote, ai, Worker, Window, send}
use lame.MainWindow.Buttons.{go_button_clicked}
use lame.MainWindow.Connect.{mode_packet, set_drive_mode, work, worker_round}
use lame.MainWindow.Exchange.{Pair, exchange, exchanges}
use lame.MainWindow.Exchange.Steps.{
  querying, setting, connecting, go_button_clicked-connecting, deliver_back-none, pair_of,
  exchange-sent, exchange-query, exchange-heard,
}

-- The stages that the thread can be at without an acknowledgement.
pub data Stage : Type 0 where
  unheard : Stage
  heard asking : ℕ → Stage

abbrev pub waiting : DriveMode → SockAddr → Bool → Stage → Window
waiting mode endpoint closing unheard = connecting mode endpoint closing false none querying
waiting mode endpoint closing (heard t) = connecting mode endpoint closing false (some t) querying
waiting mode endpoint closing (asking t) = connecting mode endpoint closing false (some t) setting

module _ {Frame : Type 0} (imencode : Frame → ℕ → Option (List ℕ)) (sys : Sockets)
    (station endpoint : SockAddr) (closing : Bool) where
  -- The thread asks for what the robot does not know.
  exchange-unknown :
      (mode : DriveMode) (last : Option ℕ) (r : Bler Frame) (read_buffer : List ℕ)
      (env : Surroundings)
      → mode ≢ remote
      → (after : Round Frame) × (exchange imencode sys station
            (record {
              window = connecting mode endpoint closing false last setting;
              robot = r;
              read_buffer = read_buffer;
            })
            env
          ≡ ok (
              pair_of imencode sys station
                (connecting mode endpoint closing false last setting)
                after))
        × IsCalm r after.robot
  unfolding worker_round work set_drive_mode mode_packet send
  exchange-unknown remote last r read_buffer env other = absurd (other refl)
  exchange-unknown direct last r read_buffer env other =
      let (after, received, calm, silent) =
        udp_round-empty imencode sys r read_buffer station env in
      let w = connecting direct endpoint closing false last setting in
      (
        after,
        exchange-sent imencode sys station _ w w [] endpoint env after refl received
            (deliver_back-none station w env.now after.events silent),
        calm,
      )
  exchange-unknown ai last r read_buffer env other =
      let (after, received, calm, silent) =
        udp_round-ai_init imencode sys r read_buffer station env in
      let w = connecting ai endpoint closing false last setting in
      (
        after,
        exchange-sent imencode sys station _ w w (wire ai_init_opcode) endpoint env after
            (rw get_ai_init_packet_lem) received
            (deliver_back-none station w env.now after.events silent),
        calm,
      )

  -- The window still waits, at some stage, and the robot's mode is what it was.
  pub record IsWaiting (mode : DriveMode) (r : Bler Frame) (p : Pair Frame) : Type 0 where
    pub stage : Stage
    pub window : p.window ≡ waiting mode endpoint closing stage
    pub calm : p.robot.current_mode ≡ r.current_mode

  exchange-waiting :
      (mode : DriveMode) (r0 r : Bler Frame) (read_buffer : List ℕ) (env : Surroundings)
      (stage : Stage)
      → mode ≢ remote
      → r.current_mode ≡ r0.current_mode
      → (p : Pair Frame) × (exchange imencode sys station
            (record {
              window = waiting mode endpoint closing stage;
              robot = r;
              read_buffer = read_buffer;
            })
            env
          ≡ ok p)
        × IsWaiting mode r0 p
  exchange-waiting mode r0 r b env unheard other same =
      let (after, e, calm) = exchange-query imencode sys station mode endpoint closing r b env in
      (_, e, record { stage = heard env.now; window = refl; calm = calm.mode ∙ same })
  exchange-waiting mode r0 r b env (heard t) other same = (
    _,
    exchange-heard imencode sys station mode endpoint closing r b env t,
    record { stage = asking t; window = refl; calm = same },
  )
  exchange-waiting mode r0 r b env (asking t) other same =
      let (after, e, calm) = exchange-unknown mode (some t) r b env other in
      (_, e, record { stage = asking t; window = refl; calm = calm.mode ∙ same })

  exchange-IsWaiting :
      (mode : DriveMode) (r0 : Bler Frame) (p : Pair Frame) (env : Surroundings)
      → mode ≢ remote
      → IsWaiting mode r0 p
      → (p' : Pair Frame) × (exchange imencode sys station p env ≡ ok p') × IsWaiting mode r0 p'
  exchange-IsWaiting mode r0 p env other k =
      let (p', e, k') = exchange-waiting mode r0 p.robot p.read_buffer env k.stage other k.calm in
      (
        p',
        ap
              (λ (w : Window).
                exchange imencode sys station
                  (record { window = w; robot = p.robot; read_buffer = p.read_buffer }) env)
              k.window
            ∙ e,
        k',
      )

  exchanges-IsWaiting :
      (mode : DriveMode) (r0 : Bler Frame) (p : Pair Frame) (envs : List Surroundings)
      → mode ≢ remote
      → IsWaiting mode r0 p
      → (p' : Pair Frame) × (exchanges imencode sys station p envs ≡ ok p') × IsWaiting mode r0 p'
  unfolding exchanges
  exchanges-IsWaiting mode r0 p [] other k = (p, refl, k)
  exchanges-IsWaiting mode r0 p (env ∷ envs) other k =
      let (p1, e1, k1) = exchange-IsWaiting mode r0 p env other k in
      let (p2, e2, k2) = exchanges-IsWaiting mode r0 p1 envs other k1 in (p2, rw e1 e2, k2)

waiting-off :
    (mode : DriveMode) (endpoint : SockAddr) (closing : Bool) (stage : Stage)
    → (state : Worker) × ((waiting mode endpoint closing stage).is_connected ≡ false)
      × ((waiting mode endpoint closing stage).worker ≡ some state)
waiting-off mode endpoint closing unheard = (querying, refl, refl)
waiting-off mode endpoint closing (heard t) = (querying, refl, refl)
waiting-off mode endpoint closing (asking t) = (setting, refl, refl)

-- After the button for direct drive or for the AI, pressed in a window that still receives, is not
-- connected and has no thread alive, the thread never ends: however many rounds it makes, with every datagram delivered and answered, it sends what the robot has no case for, so
-- the window stays unconnected with its thread alive, and the robot stays in the mode it was in.
pub exchanges-refused :
    {Frame : Type 0} (imencode : Frame → ℕ → Option (List ℕ)) (sys : Sockets)
    (station endpoint : SockAddr) (mode : DriveMode) (w : Window) (r : Bler Frame)
    (read_buffer : List ℕ) (envs : List Surroundings)
    → mode ≢ remote
    → w.is_connected ≡ false
    → w.worker ≡ none
    → w.receiving ≡ true
    → (last : Pair Frame) × (state : Worker) × (exchanges imencode sys station
          (record {
            window = go_button_clicked w (some endpoint) (some mode);
            robot = r;
            read_buffer = read_buffer;
          })
          envs
        ≡ ok last)
      × (last.window.is_connected ≡ false)
      × (last.window.worker ≡ some state)
      × (last.robot.current_mode ≡ r.current_mode)
exchanges-refused imencode sys station endpoint mode w r read_buffer envs other off idle listens =
    let (last, e, k) =
      exchanges-IsWaiting imencode sys station endpoint w.window_closing mode r
        (record {
          window = go_button_clicked w (some endpoint) (some mode);
          robot = r;
          read_buffer = read_buffer;
        })
        envs other
        (record {
          stage = unheard;
          window = go_button_clicked-connecting w endpoint mode off idle listens;
          calm = refl;
        }) in
    let (state, unconnected, alive) = waiting-off mode endpoint w.window_closing k.stage in
    (last, state, e, rw k.window unconnected, rw k.window alive, k.calm)
