-- ===== src/Devices/TcpClient.antt =====
-- Robot/src/TcpClient.cpp and Robot/include/TcpClient.hpp (the POSIX version).
pub mod Closing
use lame.Prelude.{
  ℕ, zero, suc, Bool, true, false, not, List, [], ◌∷◌, ◌++◌, ◌&&◌, ◌||◌, if◌then◌else◌,
}
use lame.Prelude.Int.{ℤ, pos, negsuc}
use lame.Bler.State.{SockAddr}
use lame.Devices.Calls.{Call, acquired, closed, written, read_from, invalid_handle}

pub record TcpClient : Type 0 where
  pub other_endpoint_addr : SockAddr
  pub port : ℤ
  pub handle : ℤ
  pub other_endpoint_handle : ℤ
  pub is_open : Bool
  pub connected : Bool
  pub listener : Bool

abbrev no_addr : SockAddr
no_addr = record { sin_family = 0; s_addr = 0; sin_port = 0 }

unfoldable pub construct : ℤ → TcpClient
construct port = record {
  other_endpoint_addr = no_addr;
  port = port;
  handle = invalid_handle;
  other_endpoint_handle = invalid_handle;
  is_open = false;
  connected = false;
  listener = false;
}

-- `handle == INVALID_SOCKET_HANDLE`
abbrev pub is_invalid : ℤ → Bool
is_invalid (pos n) = false
is_invalid (negsuc zero) = true
is_invalid (negsuc (suc n)) = false

-- What `socket` answers, and whether `bind` succeeds.
unfoldable pub open_socket : ℤ → Bool → TcpClient → TcpClient × Bool × List Call
open_socket sock_handle binds c =
    if c.is_open || c.connected
    then (c, true, [])
    else if is_invalid sock_handle
    then (c, false, [])
    else if binds
    then (record c { handle = sock_handle; is_open = true }, true, acquired sock_handle ∷ [])
    else (c, false, acquired sock_handle ∷ [])

-- Whether `listen` succeeds, what `accept` answers, and the peer's address.
unfoldable pub listen : Bool → ℤ → SockAddr → TcpClient → TcpClient × Bool × List Call
listen listens accepted peer c =
    if not c.is_open || c.connected
    then (c, true, [])
    else if not listens
    then (c, false, [])
    else if is_invalid accepted
    then (record c { other_endpoint_handle = accepted; listener = true }, false, [])
    else (
      record c {
        other_endpoint_addr = peer;
        other_endpoint_handle = accepted;
        connected = true;
        listener = true;
      },
      true,
      acquired accepted ∷ [],
    )

-- Whether `connect` succeeds.
unfoldable pub connect : Bool → SockAddr → TcpClient → TcpClient × Bool × List Call
connect connects dest c =
    if not c.is_open || c.connected
    then (c, true, [])
    else if connects
    then (record c { other_endpoint_addr = dest; connected = true }, true, [])
    else (record c { other_endpoint_addr = dest }, false, [])

pub close_valid : ℤ → List Call
close_valid h = if is_invalid h then [] else closed h ∷ []

unfoldable pub close_socket : TcpClient → TcpClient × List Call
unfolding close_valid
close_socket c =
    if c.is_open
    then (
      record c { connected = false },
      close_valid c.handle ++ close_valid c.other_endpoint_handle,
    )
    else (c, [])

-- The destructor.
unfoldable pub destroy : TcpClient → TcpClient × List Call
destroy c = if c.is_open then close_socket c else (c, [])

-- `n` is what `send` or `recv` answers.
unfoldable pub write : ℤ → TcpClient → List ℕ → ℤ × List Call
write n c bytes =
    if not c.is_open || not c.connected
    then (negsuc 0, [])
    else (n, written (if c.listener then c.other_endpoint_handle else c.handle) bytes ∷ [])

unfoldable pub read : ℤ → TcpClient → ℕ → ℤ × List Call
read n c size =
    if not c.is_open || not c.connected
    then (negsuc 0, [])
    else (n, read_from (if c.listener then c.other_endpoint_handle else c.handle) size ∷ [])

pub get_port : TcpClient → ℤ
get_port c = c.port

pub is_open : TcpClient → Bool
is_open c = c.is_open

pub is_connected : TcpClient → Bool
is_connected c = c.connected
