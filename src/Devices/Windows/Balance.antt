-- ===== src/Devices/Windows/Balance.antt =====
-- The calls of `WSAStartup` and `WSACleanup` in Robot/src/TcpClient.cpp.
use lame.Prelude.{
  ℕ, zero, suc, ◌+◌, ◌≡◌, refl, Bool, true, false, Bool-cases, inl, inr, List, [], ◌∷◌, ◌++◌, map,
  arith, ◌||◌, if◌then◌else◌,
}
use lame.Prelude.Int.{ℤ, pos, negsuc}
use lame.Bler.State.{SockAddr}
use lame.Devices.Calls.{Call}
use lame.Devices.TcpClient.{
  TcpClient, construct, open_socket, listen, connect, close_socket, write, read,
}
use lame.Devices.Windows.{
  WindowsCall, wsa_startup, wsa_cleanup, posix, after_startup, tcp_open, tcp_destroy, TcpOp, opens,
  listens, connects, closes, writes, reads, tcp_apply, tcp_apply_all,
}

abbrev pub startups : List WindowsCall → ℕ
startups [] = 0
startups (wsa_startup ∷ calls) = suc (startups calls)
startups (wsa_cleanup ∷ calls) = startups calls
startups (posix call ∷ calls) = startups calls

abbrev pub cleanups : List WindowsCall → ℕ
cleanups [] = 0
cleanups (wsa_startup ∷ calls) = cleanups calls
cleanups (wsa_cleanup ∷ calls) = suc (cleanups calls)
cleanups (posix call ∷ calls) = cleanups calls

startups-append : (xs ys : List WindowsCall) → startups (xs ++ ys) ≡ startups xs + startups ys
startups-append [] ys = omega arith
startups-append (wsa_startup ∷ xs) ys = omega (arith, startups-append xs ys)
startups-append (wsa_cleanup ∷ xs) ys = startups-append xs ys
startups-append (posix call ∷ xs) ys = startups-append xs ys

cleanups-append : (xs ys : List WindowsCall) → cleanups (xs ++ ys) ≡ cleanups xs + cleanups ys
cleanups-append [] ys = omega arith
cleanups-append (wsa_startup ∷ xs) ys = cleanups-append xs ys
cleanups-append (wsa_cleanup ∷ xs) ys = omega (arith, cleanups-append xs ys)
cleanups-append (posix call ∷ xs) ys = cleanups-append xs ys

startups-posix : (calls : List Call) → startups (map posix calls) ≡ 0
startups-posix [] = refl
startups-posix (call ∷ calls) = startups-posix calls

cleanups-posix : (calls : List Call) → cleanups (map posix calls) ≡ 0
cleanups-posix [] = refl
cleanups-posix (call ∷ calls) = cleanups-posix calls

-- Whether a start is held.
abbrev pub holds : TcpClient → ℕ
holds c = if c.is_open then 1 else 0

-- The starts of some calls and the one held before are the cleanups and the one held after.
abbrev Balanced : TcpClient → TcpClient × List WindowsCall → Type 0
Balanced c s = holds c + startups s.1 ≡ holds s.0 + cleanups s.1

posix-Balanced :
    (c c' : TcpClient) (calls : List Call)
    → c'.is_open ≡ c.is_open
    → Balanced c (c', map posix calls)
posix-Balanced c c' calls same = rw same (omega (arith, startups-posix calls, cleanups-posix calls))

same_open-listen :
    (ok : Bool) (accepted : ℤ) (peer : SockAddr) (c : TcpClient)
    → (listen ok accepted peer c).0.is_open ≡ c.is_open
unfolding listen
same_open-listen ok accepted peer c = ground arith

same_open-connect :
    (ok : Bool) (dest : SockAddr) (c : TcpClient) → (connect ok dest c).0.is_open ≡ c.is_open
unfolding connect
same_open-connect ok dest c = ground arith

same_open-close_socket : (c : TcpClient) → (close_socket c).0.is_open ≡ c.is_open
unfolding close_socket
same_open-close_socket c = ground arith

tcp_open-fresh :
    (starts : Bool) (sock_handle : ℤ) (binds : Bool) (c : TcpClient)
    → c.is_open ≡ false
    → c.connected ≡ false
    → Balanced c (tcp_apply (opens starts sock_handle binds) c)
unfolding tcp_apply tcp_open after_startup open_socket
tcp_open-fresh false sock_handle binds c off alone = simp (off, alone) refl
tcp_open-fresh true (pos n) true c off alone = simp (off, alone) refl
tcp_open-fresh true (pos n) false c off alone = simp (off, alone) refl
tcp_open-fresh true (negsuc zero) binds c off alone = simp (off, alone) refl
tcp_open-fresh true (negsuc (suc n)) true c off alone = simp (off, alone) refl
tcp_open-fresh true (negsuc (suc n)) false c off alone = simp (off, alone) refl

tcp_open-Balanced :
    (starts : Bool) (sock_handle : ℤ) (binds : Bool) (c : TcpClient)
    → Balanced c (tcp_apply (opens starts sock_handle binds) c)
unfolding tcp_apply tcp_open after_startup open_socket
tcp_open-Balanced starts sock_handle binds c = elim (Bool-cases (c.is_open || c.connected)) [
  | inl busy ↦ rw busy refl
  | inr free ↦ tcp_open-fresh starts sock_handle binds c (ground arith) (ground arith)
]

tcp_apply-Balanced : (op : TcpOp) (c : TcpClient) → Balanced c (tcp_apply op c)
unfolding tcp_apply write read
tcp_apply-Balanced (opens starts sock_handle binds) c = tcp_open-Balanced starts sock_handle binds c
tcp_apply-Balanced (listens ok accepted peer) c =
    posix-Balanced c (listen ok accepted peer c).0 (listen ok accepted peer c).2
      (same_open-listen ok accepted peer c)
tcp_apply-Balanced (connects ok dest) c =
    posix-Balanced c (connect ok dest c).0 (connect ok dest c).2 (same_open-connect ok dest c)
tcp_apply-Balanced closes c =
    posix-Balanced c (close_socket c).0 (close_socket c).1 (same_open-close_socket c)
tcp_apply-Balanced (writes n bytes) c = posix-Balanced c c (write n c bytes).1 refl
tcp_apply-Balanced (reads n size) c = posix-Balanced c c (read n c size).1 refl

tcp_apply_all-Balanced : (ops : List TcpOp) (c : TcpClient) → Balanced c (tcp_apply_all ops c)
unfolding tcp_apply_all
tcp_apply_all-Balanced [] c = refl
tcp_apply_all-Balanced (op ∷ ops) c = omega (
  arith,
  tcp_apply-Balanced op c,
  tcp_apply_all-Balanced ops (tcp_apply op c).0,
  startups-append (tcp_apply op c).1 (tcp_apply_all ops (tcp_apply op c).0).1,
  cleanups-append (tcp_apply op c).1 (tcp_apply_all ops (tcp_apply op c).0).1,
)

tcp_destroy-startups :
    (c : TcpClient) → holds c + startups (tcp_destroy c).1 ≡ cleanups (tcp_destroy c).1
unfolding tcp_destroy
tcp_destroy-startups c = elim (Bool-cases c.is_open) [
  | inr off ↦ simp off refl
  | inl on ↦
      let calls = (close_socket c).1 in
      simp on (
        omega (
          arith,
          startups-append (map posix calls) (wsa_cleanup ∷ []),
          cleanups-append (map posix calls) (wsa_cleanup ∷ []),
          startups-posix calls,
          cleanups-posix calls,
        ))
]

-- On Windows, over the whole life of a `TcpClient`, from its constructor through whatever methods
-- in whatever order and with whatever answers of the system to its destructor, `WSACleanup` is
-- called as often as `WSAStartup` has succeeded.
pub tcp_apply_all-startups :
    (port : ℤ) (ops : List TcpOp)
    → let lived = tcp_apply_all ops (construct port) in
      startups (lived.1 ++ (tcp_destroy lived.0).1) ≡ cleanups (lived.1 ++ (tcp_destroy lived.0).1)
unfolding construct
tcp_apply_all-startups port ops =
    let (lived, calls) = tcp_apply_all ops (construct port) in
    omega (
      arith,
      tcp_apply_all-Balanced ops (construct port),
      tcp_destroy-startups lived,
      startups-append calls (tcp_destroy lived).1,
      cleanups-append calls (tcp_destroy lived).1,
    )
