-- ===== src/Tests/Samples.antt =====
-- Inputs for the tests: packets, a robot and its surroundings.
use lame.Prelude.{ℕ, ◌+◌, ◌*◌, ◌/◌, ◌%◌, List, [], ◌∷◌, replicate, Option, none, some, true, false}
use lame.Prelude.Int.{negsuc}
use lame.Packet.Payloads.{DrivePayload, LocationPayload, CameraQualityPayload}
use lame.Bler.State.{Sockets, SockAddr, DriveMode, Bler}
use lame.Bler.Udp.{Surroundings}
use lame.Bler.Execute.{Joystick}

abbrev pub data_bytes : List ℕ
data_bytes = 1 ∷ 0 ∷ 0 ∷ 7 ∷ 8 ∷ []

abbrev pub garbage : List ℕ
garbage = 3 ∷ 0 ∷ 0xab ∷ 200 ∷ 0 ∷ 0x7f ∷ []

abbrev pub forward : DrivePayload
forward = record { left = 100; right = 156; vibrator = 0; actuator = 3; scooper = 0 }

abbrev pub no_motion : DrivePayload
no_motion = record { left = 0; right = 0; vibrator = 0; actuator = 0; scooper = 0 }

abbrev pub corner : LocationPayload
corner = record { x = 300; y = 0; heading = 200 }

abbrev pub half_quality : CameraQualityPayload
half_quality = record { quality = 50 }

-- A little-endian machine's byte order functions.
abbrev pub linux : Sockets
linux = record {
  af_inet = 2;
  inaddr_loopback = 0x7f000001;
  inaddr_any = 0;
  htons = λ n. n % 256 * 256 + n / 256 % 256;
  htonl =
      λ n. n % 256 * 16777216 + n / 256 % 256 * 65536 + n / 65536 % 256 * 256 + n / 16777216 % 256;
}

-- A frame is the number of its brightness, and is compressed to two bytes.
abbrev pub compress : ℕ → ℕ → Option (List ℕ)
compress img quality = some (img ∷ quality ∷ [])

abbrev pub ai_peer : SockAddr
ai_peer = record { sin_family = 2; s_addr = 0x100007f; sin_port = 0xf82a }

abbrev pub station : SockAddr
station = record { sin_family = 2; s_addr = 0x101a8c0; sin_port = 0x1027 }

abbrev pub robot_in : DriveMode → Bler ℕ
robot_in mode = record {
  is_running = true;
  ai_connected = false;
  base_station_addr = station;
  ai_addr = ai_peer;
  current_mode = mode;
  latest_camera_frame = some 7;
  latest_camera1_frame = none;
  latest_drive_payload = no_motion;
  last_drive_payload_received_time = 1000;
  last_ai_heartbeat_received_time = 1000;
  quality = 15;
}

abbrev pub zeroed : List ℕ
zeroed = replicate 64 0

abbrev pub around : Surroundings
around = record {
  now = 1010;
  link = record { opens = true; connects = true };
  stale_drive = forward;
  stale_quality = half_quality;
}

-- One joystick, of which the right stick cannot be read.
abbrev pub sticks : Joystick
sticks = record { get_ids = 4 ∷ []; get_left_y = λ _. some (negsuc 79); get_right_y = λ _. none }
