-- ===== src/MainWindow/Connect.antt =====
-- BaseStation/BaseStation/MainWindow.xaml.cs: `ConnectingWorker`, its start and one round of its loop.
use lame.Prelude.{
  ℕ, true, false, not, List, [], Option, none, some, Outcome, ok, ◌>>=◌, if◌then◌else◌,
}
use lame.Bler.Sending.{Event}
use lame.PacketHandler.{get_query_heartbeat_packet, get_remote_switch_packet, get_ai_init_packet}
use lame.MainWindow.State.{DriveMode, direct, remote, ai, Worker, Window, send}

-- Before the loop.
unfoldable pub begin_worker : Window → Window
begin_worker w = record w {
  last_heartbeat_received = none;
  received_drive_mode_ack = false;
  worker = some (record {
    query_heartbeat_state = not w.is_connected;
    set_drive_mode_state = w.is_connected;
  });
}

-- The bytes that ask the robot for a mode.
unfoldable pub mode_packet : DriveMode → Outcome (List ℕ)
mode_packet direct = ok []
mode_packet remote = get_remote_switch_packet
mode_packet ai = get_ai_init_packet

-- `if (queryHeartbeatState)`
unfoldable pub query_heartbeat : Window → Option ℕ → Outcome (Window × List Event)
query_heartbeat w (some received) = ok (
  record w {
    worker = some (record { query_heartbeat_state = false; set_drive_mode_state = true });
  },
  [],
)
query_heartbeat w none = get_query_heartbeat_packet >>= λ buffer.
    send buffer w.robot_packet_endpoint >>= λ sent. ok (w, sent)

-- `else if (setDriveModeState)`; `done` ends the thread. The last `Thread.Sleep(150)`, during which
-- the thread still counts as alive, is left out: the thread is over with the round.
unfoldable pub set_drive_mode : Window → Outcome (Window × List Event)
set_drive_mode w = mode_packet w.current_drive_mode >>= λ buffer.
    send buffer w.robot_packet_endpoint >>= λ sent.
    ok (
      if w.received_drive_mode_ack then record w { is_connected = true; worker = none } else w,
      sent,
    )

unfoldable pub work : Window → Worker → Outcome (Window × List Event)
work w state =
    if state.query_heartbeat_state
    then query_heartbeat w w.last_heartbeat_received
    else if state.set_drive_mode_state
    then set_drive_mode w
    else ok (record w { worker = none }, [])

-- A round of the thread, if it is alive.
unfoldable pub worker_round : Window → Option Worker → Outcome (Window × List Event)
worker_round w none = ok (w, [])
worker_round w (some state) = work w state
