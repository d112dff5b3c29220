-- ===== src/Bler/State.antt =====
-- Robot/include/BLER.hpp: the state of a `BLER`, and what its constructor leaves in it.
use lame.Prelude.{ℕ, Bool, false, Option, none}
use lame.Packet.Payloads.{DrivePayload}

-- What the system headers define: the constants, and the byte order functions.
pub record Sockets : Type 0 where
  pub af_inet : ℕ
  pub inaddr_loopback : ℕ
  pub inaddr_any : ℕ
  pub htons : ℕ → ℕ
  pub htonl : ℕ → ℕ

-- `struct sockaddr_in`; the address and the port are in network order.
pub record SockAddr : Type 0 where
  pub sin_family : ℕ
  pub s_addr : ℕ
  pub sin_port : ℕ

pub data DriveMode : Type 0 where
  direct remote ai : DriveMode

-- `Frame` stands for the pixels of a `cv::Mat`; `none` is a `cv::Mat` without data. `quality` is
-- `params[1]`, a global of BLER.cpp. Times are those of `time(nullptr)`, in seconds.
pub record Bler (Frame : Type 0) : Type 0 where
  pub is_running : Bool
  pub ai_connected : Bool
  pub base_station_addr : SockAddr
  pub ai_addr : SockAddr
  pub current_mode : DriveMode
  pub latest_camera_frame : Option Frame
  pub latest_camera1_frame : Option Frame
  pub latest_drive_payload : DrivePayload
  pub last_drive_payload_received_time : ℕ
  pub last_ai_heartbeat_received_time : ℕ
  pub quality : ℕ

abbrev pub no_drive : DrivePayload
no_drive = record { left = 0; right = 0; vibrator = 0; actuator = 0; scooper = 0 }

-- The constructor; `stale_addr` is what the memory of `baseStationAddr` held, which it leaves unset.
pub construct : {Frame : Type 0} → Sockets → SockAddr → ℕ → ℕ → Bler Frame
construct sys stale_addr ai_port now = record {
  is_running = false;
  ai_connected = false;
  base_station_addr = stale_addr;
  ai_addr = record {
    sin_family = sys.af_inet;
    s_addr = sys.htonl sys.inaddr_loopback;
    sin_port = sys.htons ai_port;
  };
  current_mode = direct;
  latest_camera_frame = none;
  latest_camera1_frame = none;
  latest_drive_payload = no_drive;
  last_drive_payload_received_time = now;
  last_ai_heartbeat_received_time = now;
  quality = 15;
}
