-- ===== src/Bler/Sensors.antt =====
-- Robot/src/BLER.cpp: `ReceivePacketsFromSerial`, one round of its loop.
use lame.Prelude.{ℕ, List, Option, none, some, replicate}
use lame.Bler.Udp.{read_buffer_size}

-- What `serialPort->Read` has put into the array, or `none` for an error. Nothing is made of it.
pub serial_round : List ℕ → Option (List ℕ) → List ℕ
serial_round read_buffer none = read_buffer
serial_round read_buffer (some filled) = replicate read_buffer_size 0
