-- ===== src/MainWindow/Buttons.antt =====
-- BaseStation/BaseStation/MainWindow.xaml.cs: the events of the user interface.
use lame.Prelude.{
  ℕ, zero, suc, true, false, List, [], ◌∷◌, Option, none, some, Outcome, ok, ◌>>=◌, if◌then◌else◌,
}
use lame.Prelude.Int.{ℤ, pos, negsuc}
use lame.CommandLine.{same_string}
use lame.Bler.State.{SockAddr}
use lame.Bler.Sending.{Event}
use lame.PacketHandler.{
  get_query_camera_image_packet, get_query_camera1_image_packet, get_query_heartbeat_packet,
  get_set_camera_quality_packet, get_set_camera_location_packet,
}
use lame.MainWindow.State.{DriveMode, direct, remote, ai, Worker, Window, send}
use lame.MainWindow.Connect.{begin_worker}

-- `FrontCameraID`
abbrev pub front_camera_id : ℕ
front_camera_id = 1

-- `GetDriveMode`: the item's text is by its characters' codes, `none` for an item without one.
pub mode_named : List ℕ → Option DriveMode
mode_named item =
    if same_string item (68 ∷ 105 ∷ 114 ∷ 101 ∷ 99 ∷ 116 ∷ 32 ∷ 68 ∷ 114 ∷ 105 ∷ 118 ∷ 101 ∷ [])
    then some direct
    else if same_string item
        (82 ∷ 101 ∷ 109 ∷ 111 ∷ 116 ∷ 101 ∷ 32 ∷ 68 ∷ 114 ∷ 105 ∷ 118 ∷ 101 ∷ [])
    then some remote
    else if same_string item (65 ∷ 73 ∷ [])
    then some ai
    else none

pub mode_at : List (Option (List ℕ)) → ℕ → Option DriveMode
mode_at [] n = none
mode_at (none ∷ items) zero = none
mode_at (some item ∷ items) zero = mode_named item
mode_at (item ∷ items) (suc n) = mode_at items n

pub get_drive_mode : List (Option (List ℕ)) → ℤ → Option DriveMode
get_drive_mode items (pos selected_index) = mode_at items selected_index
get_drive_mode items (negsuc n) = none

-- Nothing happens while a thread is alive.
unfoldable pub start_connection : Window → Option Worker → Window
start_connection w none = begin_worker w
start_connection w (some state) = w

-- `GetDriveMode` answers `mode`, `none` for an invalid item.
unfoldable pub update_mode : Window → Option DriveMode → Window
update_mode w none = w
update_mode w (some mode) =
    start_connection (record w { current_drive_mode = mode; is_connected = false }) w.worker

unfoldable pub connect_to : Window → Option SockAddr → Option DriveMode → Window
connect_to w none mode = w
connect_to w (some addr) none = record w { robot_packet_endpoint = some addr }
connect_to w (some addr) (some mode) =
    start_connection (record w { robot_packet_endpoint = some addr; current_drive_mode = mode })
      w.worker

-- `addr` is what `IPAddress.TryParse` makes of the text, with the robot's port.
unfoldable pub go_button_clicked : Window → Option SockAddr → Option DriveMode → Window
go_button_clicked w addr mode =
    if w.is_connected then update_mode w mode else connect_to w addr mode

unfoldable pub if_connected : Window → Outcome (List ℕ) → Outcome (List Event)
if_connected w packet =
    if w.is_connected then (packet >>= λ buffer. send buffer w.robot_packet_endpoint) else ok []

unfoldable pub request_image_clicked : Window → Outcome (List Event)
unfolding if_connected
request_image_clicked w = if_connected w get_query_camera_image_packet

unfoldable pub request_image1_clicked : Window → Outcome (List Event)
unfolding if_connected
request_image1_clicked w = if_connected w get_query_camera1_image_packet

unfoldable pub quality_value_changed : Window → ℤ → Outcome (List Event)
unfolding if_connected
quality_value_changed w value =
    if_connected w (get_set_camera_quality_packet (record { quality = value }))

unfoldable pub camera_location_value_changed : Window → ℤ → Outcome (List Event)
unfolding if_connected
camera_location_value_changed w value =
    if_connected w
      (get_set_camera_location_packet (record { id = pos front_camera_id; angle = value }))

-- The timer.
unfoldable pub query_heartbeat_event : Window → Option SockAddr → Outcome (List Event)
query_heartbeat_event w none = ok []
query_heartbeat_event w (some endpoint) =
    if w.is_connected
    then (get_query_heartbeat_packet >>= λ buffer. send buffer (some endpoint))
    else ok []

-- The window is closed: the connecting thread is aborted. What `WindowClosing` does to the joystick
-- service and to the listener for images is no field of the window, and is left out.
unfoldable pub close_window : Window → Window
close_window w = record w { window_closing = true; worker = none }
