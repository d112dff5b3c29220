-- ===== src/MainWindow/Receive.antt =====
-- BaseStation/BaseStation/MainWindow.xaml.cs: `PacketReceiveCallback`.
use lame.Prelude.{
  ℕ, List, length, Option, none, some, Outcome, ok, ◌>>=◌, true, false, ◌==◌, if◌then◌else◌,
}
use lame.Prelude.Int.{pos}
use lame.Packet.Opcodes.{report_heartbeat_opcode, remote_switch_opcode, switch_mode_ack_opcode}
use lame.PacketHandler.{get_packet_opcode}
use lame.MainWindow.State.{Window, remote}

-- The `switch` on the opcode.
unfoldable pub on_opcode : Window → ℕ → ℕ → Window
on_opcode w opcode now =
    if opcode == report_heartbeat_opcode
    then record w { last_heartbeat_received = some now }
    else if opcode == remote_switch_opcode
    then record w { current_drive_mode = remote }
    else if opcode == switch_mode_ack_opcode
    then record w { received_drive_mode_ack = true }
    else w

-- What `EndReceive` gives, `none` for a `SocketException`: the connecting thread is
-- aborted, and no other receive is begun.
unfoldable pub packet_received : Window → Option (List ℕ) → ℕ → Outcome Window
packet_received w none now = ok (record w { worker = none; receiving = false })
packet_received w (some buffer) now =
    get_packet_opcode buffer (pos (length buffer)) >>= λ opcode. ok (on_opcode w opcode now)
