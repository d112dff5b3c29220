-- ===== src/MainWindow/Image.antt =====
-- BaseStation/BaseStation/MainWindow.xaml.cs: `ImageListenerThread`, one connection.
pub mod Loop
pub mod Whole
use lame.Prelude.{
  ℕ, zero, suc, ◌+◌, ◌-◌, ◌*◌, Bool, ◌&&◌, List, [], ◌∷◌, ◌++◌, length, take, drop, replicate, min,
  Outcome, ok, fault, no_fuel, ◌>>=◌, load, ltb, ◌==◌, bit_or, if◌then◌else◌,
}

-- `stream.Read` with room for `count` bytes: what it gives, and what is still to come. It gives at
-- least one byte before the end, and no more than have arrived, `arrived` more than one.
pub stream_read : ℕ → ℕ → List ℕ → List ℕ × List ℕ
stream_read arrived count bytes =
    let n = min (suc arrived) (min count (length bytes)) in (take n bytes, drop n bytes)

-- The loop's variables after an iteration: `buffer` by its length and its first `read` bytes.
pub data Filled : Type 0 where
  ended : List ℕ → Filled
  filling : ℕ → List ℕ → List ℕ → Filled

-- `stream.ReadByte()` with a full buffer. An array of 2^31 bytes cannot be made.
pub read_byte : ℕ → List ℕ → List ℕ → Outcome Filled
read_byte capacity read [] = ok (ended read)
read_byte capacity read (next_byte ∷ bytes) =
    if ltb (capacity * 2) 2147483648
    then ok (filling (capacity * 2) (read ++ next_byte ∷ []) bytes)
    else fault

-- The body of the loop with the `chunk` that was read, or its end without one.
pub take_chunk : ℕ → List ℕ → List ℕ → List ℕ → Outcome Filled
take_chunk capacity read [] bytes = ok (ended read)
take_chunk capacity read (b ∷ chunk) bytes =
    if length (read ++ b ∷ chunk) == capacity
    then read_byte capacity (read ++ b ∷ chunk) bytes
    else ok (filling capacity (read ++ b ∷ chunk) bytes)

pub fill_step : ℕ → ℕ → List ℕ → List ℕ → Outcome Filled
fill_step arrived capacity read bytes =
    let (chunk, rest) = stream_read arrived (capacity - length read) bytes in
    take_chunk capacity read chunk rest

-- The loop, on fuel; `arrived` says how much has arrived at each round.
pub receive_loop : ℕ → (ℕ → ℕ) → ℕ → ℕ → List ℕ → List ℕ → Outcome (List ℕ)
receive_loop zero arrived k capacity read bytes = no_fuel
receive_loop (suc fuel) arrived k capacity read bytes =
    fill_step (arrived k) capacity read bytes >>= elim [
      | ended all ↦ ok all
      | filling capacity' read' rest ↦ receive_loop fuel arrived (k + 1) capacity' read' rest
    ]

-- The size that the header announces. A negative `int` makes `new byte[size]` throw.
pub size_from : List ℕ → Outcome ℕ
size_from hdr_pkt = load hdr_pkt 0 >>= λ h0. load hdr_pkt 1 >>= λ h1. load hdr_pkt 2 >>= λ h2.
    load hdr_pkt 3 >>= λ h3. load hdr_pkt 4 >>= λ h4. load hdr_pkt 6 >>= λ h6.
    if h0 == 0xaa && h6 == 0x7f
    then (let size = bit_or (bit_or (bit_or (h1 * 16777216) (h2 * 65536)) (h3 * 256)) h4 in
        if ltb size 2147483648 then ok size else fault)
    else ok 32768

-- What the bitmap is made of, and `img_id`.
pub record Received : Type 0 where
  pub img_id : ℕ
  pub bytes : List ℕ

-- One connection, whose first read finds `first` more bytes than one.
pub receive_image : ℕ → ℕ → (ℕ → ℕ) → List ℕ → Outcome Received
receive_image fuel first arrived bytes =
    let (got, rest) = stream_read first 16 bytes in
    let hdr_pkt = got ++ replicate (16 - length got) 0 in
    size_from hdr_pkt >>= λ size. load hdr_pkt 5 >>= λ img_id.
    receive_loop fuel arrived 0 size [] rest >>= λ image.
    ok (record { img_id = img_id; bytes = image })
