-- ===== src/Devices/SerialPort.antt =====
-- Robot/src/Serial.cpp and Robot/include/Serial.hpp: the class, and its POSIX and Windows versions.
pub mod Balance
use lame.Prelude.{ℕ, zero, suc, Bool, true, false, List, [], ◌∷◌, ◌++◌, ◌&&◌, if◌then◌else◌}
use lame.Prelude.Int.{ℤ, pos, negsuc, ltb_ℤ}
use lame.Devices.Calls.{Call, acquired, closed, configured, written, read_from, invalid_handle}

pub record SerialPort : Type 0 where
  pub handle : ℤ
  pub opened : Bool
  pub port : List ℕ
  pub baud : ℤ

-- The constructor with a port and a speed. (The one without makes a string of a null pointer.)
unfoldable pub construct : List ℕ → ℤ → SerialPort
construct port baud = record { handle = invalid_handle; opened = false; port = port; baud = baud }

pub is_open : SerialPort → Bool
is_open p = p.opened

pub get_port : SerialPort → List ℕ
get_port p = p.port

pub get_baud : SerialPort → ℤ
get_baud p = p.baud

pub set_port_name : SerialPort → List ℕ → SerialPort
set_port_name p portname = record p { port = portname }

pub set_baud : SerialPort → ℤ → SerialPort
set_baud p baudrate = record p { baud = baudrate }

-- POSIX. `fd` is what `open` answers; the answers of the calls that configure it are ignored.
unfoldable pub open_port : ℤ → SerialPort → SerialPort × Bool × List Call
open_port fd p =
    if p.opened
    then (p, true, [])
    else if ltb_ℤ fd (pos 0)
    then (record p { handle = fd }, false, [])
    else (record p { handle = fd; opened = true }, true, acquired fd ∷ configured fd p.baud ∷ [])

unfoldable pub close_port : SerialPort → SerialPort × List Call
close_port p = (record p { opened = false }, if p.opened then closed p.handle ∷ [] else [])

-- The destructor.
unfoldable pub destroy : SerialPort → SerialPort × List Call
destroy p = close_port p

-- `n` is what `write` or `read` answers.
pub write : ℤ → SerialPort → List ℕ → ℤ × List Call
write n p bytes =
    if ltb_ℤ p.handle (pos 0) then (negsuc 0, []) else (n, written p.handle bytes ∷ [])

pub read : ℤ → SerialPort → ℕ → ℤ × List Call
read n p max_size_bytes =
    if ltb_ℤ p.handle (pos 0) then (negsuc 0, []) else (n, read_from p.handle max_size_bytes ∷ [])

-- Windows. What the five calls of `Open` answer.
pub record Answers : Type 0 where
  pub create_file : ℤ
  pub get_comm_state : Bool
  pub set_comm_state : Bool
  pub set_comm_timeouts : Bool

-- `handle == INVALID_HANDLE_VALUE`
abbrev pub is_invalid : ℤ → Bool
is_invalid (pos n) = false
is_invalid (negsuc zero) = true
is_invalid (negsuc (suc n)) = false

pub win_open : Answers → SerialPort → SerialPort × Bool × List Call
win_open a p =
    if p.opened
    then (p, true, [])
    else if is_invalid a.create_file
    then (record p { handle = a.create_file }, false, [])
    else if a.get_comm_state && (a.set_comm_state && a.set_comm_timeouts)
    then (
      record p { handle = a.create_file; opened = true },
      true,
      acquired a.create_file ∷ configured a.create_file p.baud ∷ [],
    )
    else (
      record p { handle = a.create_file },
      false,
      acquired a.create_file ∷ closed a.create_file ∷ [],
    )

pub win_close : SerialPort → SerialPort × List Call
win_close p = (record p { opened = false }, if p.opened then closed p.handle ∷ [] else [])

-- `done` is what `WriteFile` or `ReadFile` answers, `n` the number of bytes that it reports.
pub win_write : Bool → ℤ → SerialPort → List ℕ → ℤ × List Call
win_write done n p bytes =
    if is_invalid p.handle
    then (negsuc 0, [])
    else (if done then n else negsuc 0, written p.handle bytes ∷ [])

pub win_read : Bool → ℤ → SerialPort → ℕ → ℤ × List Call
win_read done n p max_size_bytes =
    if is_invalid p.handle
    then (negsuc 0, [])
    else (if done then n else negsuc 0, read_from p.handle max_size_bytes ∷ [])

-- A call of a method, with what the system answers.
pub data Op : Type 0 where
  opens : ℤ → Op
  closes : Op
  writes : ℤ → List ℕ → Op
  reads : ℤ → ℕ → Op

pub apply : Op → SerialPort → SerialPort × List Call
apply (opens fd) p = let (p', result, calls) = open_port fd p in (p', calls)
apply closes p = close_port p
apply (writes n bytes) p = (p, (write n p bytes).1)
apply (reads n max_size_bytes) p = (p, (read n p max_size_bytes).1)

pub apply_all : List Op → SerialPort → SerialPort × List Call
apply_all [] p = (p, [])
apply_all (op ∷ ops) p =
    let (p', calls) = apply op p in let (p'', later) = apply_all ops p' in (p'', calls ++ later)
