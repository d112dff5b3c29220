-- ===== src/Devices/UdpSocket.antt =====
-- Robot/src/UdpSocket.cpp and Robot/include/UdpSocket.hpp (the POSIX version).
pub mod Leaks
use lame.Prelude.{
  ℕ, zero, suc, Bool, true, false, List, [], ◌∷◌, ◌++◌, Option, none, some, if◌then◌else◌,
}
use lame.Prelude.Int.{ℤ, pos, negsuc}
use lame.Bler.State.{SockAddr}
use lame.Devices.Calls.{Call, acquired, closed, written, read_from}

pub record UdpSocket : Type 0 where
  pub port : ℤ
  pub handle : ℤ
  pub is_open : Bool

-- The constructor; it leaves `handle` as the memory was.
unfoldable pub construct : ℤ → ℤ → UdpSocket
construct stale_handle port = record { port = port; handle = stale_handle; is_open = false }

abbrev pub is_invalid : ℤ → Bool
is_invalid (pos n) = false
is_invalid (negsuc zero) = true
is_invalid (negsuc (suc n)) = false

-- What `socket` answers, and whether `bind` succeeds.
unfoldable pub open_socket : ℤ → Bool → UdpSocket → UdpSocket × Bool × List Call
open_socket sock_handle binds u =
    if is_invalid sock_handle
    then (u, false, [])
    else if binds
    then (record u { handle = sock_handle; is_open = true }, true, acquired sock_handle ∷ [])
    else (u, false, acquired sock_handle ∷ [])

unfoldable pub close_socket : UdpSocket → UdpSocket × List Call
close_socket u = if u.is_open then (record u { is_open = false }, closed u.handle ∷ []) else (u, [])

-- The destructor.
unfoldable pub destroy : UdpSocket → UdpSocket × List Call
destroy u = if u.is_open then close_socket u else (u, [])

-- `n` is what `sendto` or `recvfrom` answers; `none` is a null pointer.
unfoldable pub write : ℤ → UdpSocket → Option (List ℕ) → Option SockAddr → ℤ × List Call
write n u none dest_addr = (negsuc 0, [])
write n u (some buffer) none = (negsuc 0, [])
write n u (some buffer) (some dest_addr) = (n, written u.handle buffer ∷ [])

-- With a null `source_addr` the source is not asked for; the call is the same otherwise.
unfoldable pub read : ℤ → UdpSocket → Option (List ℕ) → ℕ → Option SockAddr → ℤ × List Call
read n u none size source_addr = (negsuc 0, [])
read n u (some buffer) size source_addr = (n, read_from u.handle size ∷ [])

pub get_port : UdpSocket → ℤ
get_port u = u.port

pub is_open : UdpSocket → Bool
is_open u = u.is_open

-- The methods that call the system, with what it answers.
pub data Op : Type 0 where
  opens : ℤ → Bool → Op
  closes : Op
  writes : ℤ → Option (List ℕ) → Option SockAddr → Op
  reads : ℤ → Option (List ℕ) → ℕ → Option SockAddr → Op

pub apply : Op → UdpSocket → UdpSocket × List Call
unfolding open_socket close_socket write read
apply (opens sock_handle binds) u =
    let (u', opened, calls) = open_socket sock_handle binds u in (u', calls)
apply closes u = close_socket u
apply (writes n buffer dest_addr) u = (u, (write n u buffer dest_addr).1)
apply (reads n buffer size source_addr) u = (u, (read n u buffer size source_addr).1)

pub apply_all : List Op → UdpSocket → UdpSocket × List Call
apply_all [] u = (u, [])
apply_all (op ∷ ops) u =
    let (u1, calls1) = apply op u in let (u2, calls2) = apply_all ops u1 in (u2, calls1 ++ calls2)
