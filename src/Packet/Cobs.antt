-- ===== src/Packet/Cobs.antt =====
-- Robot/include/Packet.h: `encodeCOBS` and `decodeCOBS`, in place on the caller's array. Both take
-- a `uint8_t length`; the indices `i` and `sec_hd` are `uint8_t` and wrap.
pub mod Reference
pub mod Encode
pub mod Decode
pub mod Total
pub mod Overrun
pub mod RoundTrip
use lame.Prelude.{
  ℕ, zero, suc, ◌+◌, ◌-◌, ◌≡◌, refl, true, false, List, [], ◌∷◌, Outcome, ok, no_fuel, ◌>>=◌, load,
  store, u8, ltb, leb, ◌==◌, if◌then◌else◌,
}

-- `for (j = sec_hd + k; j > sec_hd; j--) buffer[j] = buffer[j - 1];`, with `k` rounds.
pub shift_right : ℕ → ℕ → List ℕ → Outcome (List ℕ)
shift_right zero sec_hd buffer = ok buffer
shift_right (suc k) sec_hd buffer = do
  v ← load buffer (sec_hd + k)
  buffer' ← store buffer (sec_hd + suc k) v
  shift_right k sec_hd buffer'

-- The branch for a zero at index `i`.
pub close_block : ℕ → ℕ → List ℕ → Outcome (List ℕ × ℕ)
close_block i sec_hd buffer = do
  shifted ← shift_right (i - sec_hd) sec_hd buffer
  coded ← store shifted sec_hd (u8 (i + 1 - sec_hd))
  ok (coded, u8 (i + 1))

-- The body of the loop at index `i`: the array and `sec_hd` after it.
pub encode_step : ℕ → ℕ → List ℕ → Outcome (List ℕ × ℕ)
encode_step i sec_hd buffer = do
  b ← load buffer i
  if b == 0 then close_block i sec_hd buffer else ok (buffer, sec_hd)

-- `for (i = …; i <= length; i++)`
pub encode_loop : ℕ → ℕ → ℕ → ℕ → List ℕ → Outcome (List ℕ)
encode_loop zero length i sec_hd buffer = no_fuel
encode_loop (suc fuel) length i sec_hd buffer = elim (leb i length) [
  | true ↦ encode_step i sec_hd buffer >>= λ s. encode_loop fuel length (u8 (i + 1)) s.1 s.0
  | false ↦ ok buffer
]

-- The array afterwards, and what the function returns.
pub encode_cobs : ℕ → List ℕ → ℕ → Outcome (List ℕ × ℕ)
encode_cobs fuel buffer length = do
  coded ← encode_loop fuel length 0 0 buffer
  ended ← store coded (length + 1) 0
  ok (ended, length + 2)

-- The test after `buffer[i] = buffer[i + 1]`, or after `sec_end += buffer[i + 1]`: what is returned
-- early, or the `sec_end` to go on with.
pub data Progress : Type 0 where
  stop : List ℕ → Progress
  go_on : List ℕ → ℕ → Progress

-- The body of the loop. `sec_end - 1` is an `int`, so `i < sec_end - 1` is `i + 1 < sec_end`.
pub decode_step : ℕ → ℕ → List ℕ → Outcome Progress
decode_step i sec_end buffer = load buffer (i + 1) >>= λ next.
    if ltb (i + 1) sec_end
    then (store buffer i next >>= λ moved.
        ok (if next == 0 then stop moved else go_on moved sec_end))
    else (store buffer i 0 >>= λ cleared.
        ok (if next == 0 then stop cleared else go_on cleared (u8 (sec_end + next))))

-- `for (i = …; i < length - 2; i++)`, with `rounds` iterations left. Where `length - 2` is
-- negative there is none.
pub decode_loop : ℕ → ℕ → ℕ → List ℕ → Outcome (List ℕ × ℕ)
decode_loop zero i sec_end buffer = ok (buffer, i)
decode_loop (suc rounds) i sec_end buffer = decode_step i sec_end buffer >>= elim [
  | stop buffer' ↦ ok (buffer', i)
  | go_on buffer' sec_end' ↦ decode_loop rounds (i + 1) sec_end' buffer'
]

-- The array afterwards, and what the function returns.
pub decode_cobs : List ℕ → ℕ → Outcome (List ℕ × ℕ)
decode_cobs buffer length = load buffer 0 >>= λ sec_end. decode_loop (length - 2) 0 sec_end buffer
