-- ===== src/Devices/TcpClient/Closing.antt =====
-- What a client is after `Close` of Robot/src/TcpClient.cpp.
use lame.Prelude.{ℕ, ◌≡◌, Bool, true, List, [], arith}
use lame.Prelude.Int.{ℤ, negsuc}
use lame.Devices.TcpClient.{TcpClient, open_socket, close_socket, destroy, write, read}

-- After `Close` of an open client: it still counts as open; nothing can be written or read; `Open`
-- reports success without opening anything; and closing again, as the destructor does, closes the
-- same descriptors a second time.
pub record ClosedBadly (c : TcpClient) : Type 0 where
  pub still_open : (close_socket c).0.is_open ≡ true
  pub no_write : (n : ℤ) (bytes : List ℕ) → write n (close_socket c).0 bytes ≡ (negsuc 0, [])
  pub no_read : (n : ℤ) (size : ℕ) → read n (close_socket c).0 size ≡ (negsuc 0, [])
  pub no_reopen :
      (h : ℤ) (binds : Bool)
      → open_socket h binds (close_socket c).0 ≡ ((close_socket c).0, true, [])
  pub double : (destroy (close_socket c).0).1 ≡ (close_socket c).1

pub close_socket-ClosedBadly : (c : TcpClient) → c.is_open ≡ true → ClosedBadly c
unfolding close_socket destroy write read open_socket
close_socket-ClosedBadly c e = record {
  still_open = ground arith;
  no_write = λ n bytes. ground arith;
  no_read = λ n size. ground arith;
  no_reopen = λ h binds. ground arith;
  double = ground arith;
}
