-- ===== src/Devices/SerialPort/Balance.antt =====
-- The descriptors that `SerialPort` of Robot/src/Serial.cpp acquires and closes (POSIX).
use lame.Prelude.{ℕ, ◌+◌, ◌≡◌, refl, List, [], ◌∷◌, arith, if◌then◌else◌}
use lame.Prelude.Int.{ℤ}
use lame.Devices.Calls.{tally, acquisitions, closings, acquisitions-append, closings-append}
use lame.Devices.SerialPort.{
  SerialPort, open_port, close_port, write, read, Op, opens, closes, writes, reads, apply,
  apply_all,
}

-- How often the object holds the descriptor `g`: once if it is open with it.
abbrev pub holds : ℤ → SerialPort → ℕ
holds g p = if p.opened then tally g p.handle else 0

apply-balance :
    (g : ℤ) (op : Op) (p : SerialPort)
    → holds g p + acquisitions g (apply op p).1 ≡ holds g (apply op p).0 + closings g (apply op p).1
unfolding apply open_port close_port write read
apply-balance g (opens fd) p = ground arith
apply-balance g closes p = ground arith
apply-balance g (writes n bytes) p = ground arith
apply-balance g (reads n k) p = ground arith

-- Whatever methods are called in whatever order, and whatever the system answers, for each single
-- descriptor: how often it is acquired, with the one held before, is how often it is closed, with
-- the one held after. So none is lost, and none is closed more often than it was acquired.
pub apply_all-balance :
    (g : ℤ) (ops : List Op) (p : SerialPort)
    → holds g p + acquisitions g (apply_all ops p).1
      ≡ holds g (apply_all ops p).0 + closings g (apply_all ops p).1
unfolding apply_all
apply_all-balance g [] p = refl
apply_all-balance g (op ∷ ops) p = omega (
  arith,
  apply-balance g op p,
  apply_all-balance g ops (apply op p).0,
  acquisitions-append g (apply op p).1 (apply_all ops (apply op p).0).1,
  closings-append g (apply op p).1 (apply_all ops (apply op p).0).1,
)
