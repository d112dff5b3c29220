-- ===== src/Devices/UdpSocket/Leaks.antt =====
-- The descriptors that `UdpSocket` of Robot/src/UdpSocket.cpp acquires, closes and loses (POSIX).
use lame.Prelude.{ℕ, ◌+◌, ◌≡◌, List, [], ◌∷◌, none, some, arith, if◌then◌else◌}
use lame.Prelude.Int.{ℤ}
use lame.Devices.Calls.{tally, acquisitions, closings, acquisitions-append, closings-append}
use lame.Devices.UdpSocket.{
  UdpSocket, is_invalid, open_socket, close_socket, write, read, Op, opens, closes, writes, reads,
  apply, apply_all,
}

-- How often the object holds the descriptor `g`: once if it is open with it.
abbrev pub holds : ℤ → UdpSocket → ℕ
holds g u = if u.is_open then tally g u.handle else 0

-- A descriptor is lost where `bind` refuses it, and where a second `Open` overwrites it.
abbrev pub loses : ℤ → Op → UdpSocket → ℕ
loses g (opens sock_handle binds) u =
    if is_invalid sock_handle then 0 else (if binds then holds g u else tally g sock_handle)
loses g closes u = 0
loses g (writes n buffer dest_addr) u = 0
loses g (reads n buffer size source_addr) u = 0

abbrev pub loses_all : ℤ → List Op → UdpSocket → ℕ
unfolding apply
loses_all g [] u = 0
loses_all g (op ∷ ops) u = loses g op u + loses_all g ops (apply op u).0

apply-lost :
    (g : ℤ) (op : Op) (u : UdpSocket)
    → holds g u + acquisitions g (apply op u).1
      ≡ holds g (apply op u).0 + closings g (apply op u).1 + loses g op u
unfolding apply open_socket close_socket write read
apply-lost g (opens sock_handle binds) u = ground arith
apply-lost g closes u = ground arith
apply-lost g (writes n none dest_addr) u = omega arith
apply-lost g (writes n (some buffer) none) u = omega arith
apply-lost g (writes n (some buffer) (some dest_addr)) u = omega arith
apply-lost g (reads n none size source_addr) u = omega arith
apply-lost g (reads n (some buffer) size source_addr) u = omega arith

-- Whatever methods are called in whatever order, and whatever the system answers, for each single
-- descriptor: how often it is acquired, with the one held before, is how often it is closed, held
-- after and lost; it is lost at an `Open` whose `bind` refuses it, and at one that succeeds while
-- the socket is open with it.
pub apply_all-lost :
    (g : ℤ) (ops : List Op) (u : UdpSocket)
    → holds g u + acquisitions g (apply_all ops u).1
      ≡ holds g (apply_all ops u).0 + closings g (apply_all ops u).1 + loses_all g ops u
unfolding apply_all loses_all
apply_all-lost g [] u = omega arith
apply_all-lost g (op ∷ ops) u = omega (
  arith,
  apply-lost g op u,
  apply_all-lost g ops (apply op u).0,
  acquisitions-append g (apply op u).1 (apply_all ops (apply op u).0).1,
  closings-append g (apply op u).1 (apply_all ops (apply op u).0).1,
)
