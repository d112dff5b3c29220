-- ===== src/Tests/Sockets.antt =====
-- The serial port and the two sockets at concrete inputs.
use lame.Prelude.{◌+◌, ◌≡◌, true, false, List, [], ◌∷◌, ◌++◌}
use lame.Prelude.Int.{pos, negsuc}
use lame.Tests.Samples.{station}
use lame.Devices.Calls.{acquisitions, closings}
use lame.Devices.TcpClient.{construct}
use lame.Devices.UdpSocket.{UdpSocket, apply_all}
use lame.Devices.UdpSocket as Udp
use lame.Devices.UdpSocket.Leaks.{holds, loses_all, apply_all-lost}
use lame.Devices.SerialPort.{SerialPort}
use lame.Devices.SerialPort as Port
use lame.Devices.SerialPort.Balance as Held
use lame.Devices.Windows.{tcp_destroy, TcpOp, opens, connects, closes, writes, tcp_apply_all}
use lame.Devices.Windows.Balance.{startups, cleanups, tcp_apply_all-startups}

abbrev datagram_socket : UdpSocket
datagram_socket = record { port = pos 10000; handle = negsuc 0; is_open = false }

-- Opened twice, then a port that is taken.
abbrev reopened : List Udp.Op
reopened =
    Udp.opens (pos 3) true ∷ Udp.opens (pos 4) true ∷ Udp.closes ∷ Udp.opens (pos 5) false ∷ []

apply_all-lost_example :
    holds (pos 3) datagram_socket + acquisitions (pos 3) (apply_all reopened datagram_socket).1
    ≡ holds (pos 3) (apply_all reopened datagram_socket).0
      + closings (pos 3) (apply_all reopened datagram_socket).1
      + loses_all (pos 3) reopened datagram_socket
apply_all-lost_example = apply_all-lost (pos 3) reopened datagram_socket

abbrev connection : List TcpOp
connection =
    opens true (pos 3) false
    ∷ opens true (pos 4) true
    ∷ connects true station
    ∷ writes (pos 1) (7 ∷ [])
    ∷ closes
    ∷ opens true (pos 5) true
    ∷ []

tcp_apply_all-startups_example :
    let lived = tcp_apply_all connection (construct (pos 11000)) in
    startups (lived.1 ++ (tcp_destroy lived.0).1) ≡ cleanups (lived.1 ++ (tcp_destroy lived.0).1)
tcp_apply_all-startups_example = tcp_apply_all-startups (pos 11000) connection

abbrev serial_port : SerialPort
serial_port = Port.construct (47 ∷ 120 ∷ []) (pos 9600)

-- Opened in vain, opened twice, written and closed twice.
abbrev uses_of_port : List Port.Op
uses_of_port =
    Port.opens (negsuc 0)
    ∷ Port.opens (pos 5)
    ∷ Port.opens (pos 6)
    ∷ Port.writes (pos 1) (7 ∷ [])
    ∷ Port.closes
    ∷ Port.closes
    ∷ []

apply_all-balance_example :
    Held.holds (pos 5) serial_port
      + acquisitions (pos 5) (Port.apply_all uses_of_port serial_port).1
    ≡ Held.holds (pos 5) (Port.apply_all uses_of_port serial_port).0
      + closings (pos 5) (Port.apply_all uses_of_port serial_port).1
apply_all-balance_example = Held.apply_all-balance (pos 5) uses_of_port serial_port
