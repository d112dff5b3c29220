-- ===== src/Tests/Station.antt =====
-- The theorems on the base station and on the wrappers of the operating system, at concrete inputs.
use lame.Prelude.{ℕ, ◌≡◌, refl, true, false, List, [], ◌∷◌, arith}
use lame.Prelude.Int.{pos, negsuc}
use lame.Devices.TcpClient.{TcpClient}
use lame.Devices.TcpClient.Closing.{ClosedBadly, close_socket-ClosedBadly}
use lame.CommandLine.{default_options, parse_arguments}
use lame.CommandLine.Reading.{read_arguments, parse_arguments_lem}
use lame.Tests.Samples.{station}

-- The code of a heartbeat report.
abbrev heartbeat_report : List ℕ
heartbeat_report = 3 ∷ 0xab ∷ 0x44 ∷ 2 ∷ 0x7f ∷ 0 ∷ []

abbrev open_client : TcpClient
open_client = record {
  other_endpoint_addr = station;
  port = pos 0;
  handle = pos 5;
  other_endpoint_handle = negsuc 0;
  is_open = true;
  connected = true;
  listener = false;
}

close_socket-ClosedBadly_example : ClosedBadly open_client
close_socket-ClosedBadly_example = close_socket-ClosedBadly open_client refl

-- `bler -s /x -p`, with an `atoi` that reads every string as 7.
abbrev trailing_flag : List (List ℕ)
trailing_flag = (45 ∷ 115 ∷ []) ∷ (47 ∷ 120 ∷ []) ∷ (45 ∷ 112 ∷ []) ∷ []

parse_arguments_lem_example :
    parse_arguments (λ _. pos 7) 4 1 ((98 ∷ []) ∷ trailing_flag) default_options
    ≡ read_arguments (λ _. pos 7) trailing_flag default_options
parse_arguments_lem_example =
    parse_arguments_lem (λ _. pos 7) (98 ∷ []) trailing_flag default_options 4 (omega arith)
