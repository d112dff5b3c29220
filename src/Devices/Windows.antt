-- ===== src/Devices/Windows.antt =====
-- What Robot/src/TcpClient.cpp and Robot/src/UdpSocket.cpp do only on Windows: the calls of
-- `WSAStartup` and `WSACleanup`. The rest is as on POSIX, with `closesocket` for `close`.
pub mod Balance
use lame.Prelude.{ℕ, Bool, true, false, ◌||◌, List, [], ◌∷◌, ◌++◌, map, Option, if◌then◌else◌}
use lame.Prelude.Int.{ℤ}
use lame.Bler.State.{SockAddr}
use lame.Devices.Calls.{Call}
use lame.Devices.TcpClient.{TcpClient, listen, connect}
use lame.Devices.UdpSocket.{UdpSocket}
use lame.Devices.TcpClient as Tcp
use lame.Devices.UdpSocket as Udp

-- `wsa_startup` succeeded; one that fails has no effect.
pub data WindowsCall : Type 0 where
  wsa_startup : WindowsCall
  wsa_cleanup : WindowsCall
  posix : Call → WindowsCall

-- After `WSAStartup`: what is left of `Open`, with `OPEN_FAIL`.
unfoldable pub after_startup : {S : Type 0} → S × Bool × List Call → S × Bool × List WindowsCall
after_startup (s, true, calls) = (s, true, wsa_startup ∷ map posix calls)
after_startup (s, false, calls) = (s, false, wsa_startup ∷ (map posix calls ++ wsa_cleanup ∷ []))

-- Whether `WSAStartup` succeeds, what `socket` answers, and whether `bind` succeeds.
unfoldable pub udp_open : Bool → ℤ → Bool → UdpSocket → UdpSocket × Bool × List WindowsCall
udp_open starts sock_handle binds u =
    if starts then after_startup (Udp.open_socket sock_handle binds u) else (u, false, [])

unfoldable pub tcp_open : Bool → ℤ → Bool → TcpClient → TcpClient × Bool × List WindowsCall
tcp_open starts sock_handle binds c =
    if c.is_open || c.connected
    then (c, true, [])
    else (if starts then after_startup (Tcp.open_socket sock_handle binds c) else (c, false, []))

-- The destructor of `TcpClient`.
unfoldable pub tcp_destroy : TcpClient → TcpClient × List WindowsCall
tcp_destroy c =
    if c.is_open
    then (let (c', calls) = Tcp.close_socket c in (c', map posix calls ++ wsa_cleanup ∷ []))
    else (c, [])

-- The methods of `TcpClient` that call the system, with what it answers.
pub data TcpOp : Type 0 where
  opens : Bool → ℤ → Bool → TcpOp
  listens : Bool → ℤ → SockAddr → TcpOp
  connects : Bool → SockAddr → TcpOp
  closes : TcpOp
  writes : ℤ → List ℕ → TcpOp
  reads : ℤ → ℕ → TcpOp

unfoldable pub tcp_apply : TcpOp → TcpClient → TcpClient × List WindowsCall
tcp_apply (opens starts sock_handle binds) c =
    let (c', opened, calls) = tcp_open starts sock_handle binds c in (c', calls)
tcp_apply (listens ok accepted peer) c =
    let (c', result, calls) = listen ok accepted peer c in (c', map posix calls)
tcp_apply (connects ok dest) c =
    let (c', result, calls) = connect ok dest c in (c', map posix calls)
tcp_apply closes c = let (c', calls) = Tcp.close_socket c in (c', map posix calls)
tcp_apply (writes n bytes) c = (c, map posix (Tcp.write n c bytes).1)
tcp_apply (reads n size) c = (c, map posix (Tcp.read n c size).1)

unfoldable pub tcp_apply_all : List TcpOp → TcpClient → TcpClient × List WindowsCall
tcp_apply_all [] c = (c, [])
tcp_apply_all (op ∷ ops) c =
    let (c1, calls1) = tcp_apply op c in
    let (c2, calls2) = tcp_apply_all ops c1 in (c2, calls1 ++ calls2)
