-- ===== src/Packet/Cobs/RoundTrip.antt =====
-- `decodeCOBS` after `encodeCOBS`, both in place on one array.
use lame.Prelude.{ℕ, ◌<◌, ◌≡◌, List, ◌∷◌, ◌++◌, length, ok, ◌>>=◌, arith}
use lame.Packet.Cobs.{encode_cobs, decode_cobs}
use lame.Packet.Cobs.Encode.{encode_cobs_lem}
use lame.Packet.Cobs.Decode.{decode_cobs_lem}

-- For data of fewer than 254 bytes, zeros among them or not, that stand at the front of an array
-- with a zero and one more place behind them: decoding in place what was encoded in place gives
-- the same data and its length, and leaves the places behind those two as they were; only the
-- place just behind the data holds some byte that was read.
pub decode_cobs-encode_cobs :
    (xs : List ℕ) (v : ℕ) (r : List ℕ)
    → length xs < 254
    → (st : ℕ) × ((encode_cobs 256 (xs ++ 0 ∷ v ∷ r) (length xs) >>= λ s. decode_cobs s.0 s.1)
        ≡ ok (xs ++ st ∷ 0 ∷ r, length xs))
decode_cobs-encode_cobs xs v r small =
    let (st, decoded) = decode_cobs_lem xs (0 ∷ r) small in
    (st, rw (encode_cobs_lem xs v r (omega arith)) decoded)
