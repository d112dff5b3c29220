-- ===== src/Packet/Create/Write.antt =====
-- The serialize functions of Robot/include/Packet.h write the code of the packet's bytes.
use mathlib.Core.List.{append_assoc}
use lame.Prelude.{
  ℕ, ◌+◌, ◌≤◌, ◌<◌, ◌≡◌, refl, sym, ◌∙◌, ap, List, [], ◌∷◌, ◌++◌, length, length-append, arith, ok,
  fault, stores-append, stores_total,
}
use lame.Packet.Cobs.{encode_cobs}
use lame.Packet.Cobs.Reference.{stuff}
use lame.Packet.Cobs.Encode.{encode_cobs_lem}
use lame.Packet.Cobs.Overrun.{encode_cobs_total, encode_cobs_fault}
use lame.Packet.Create.{write_packet}

-- Over an array with a zero and one more place behind the packet.
pub write_packet_lem :
    (bytes old : List ℕ) (v : ℕ) (r : List ℕ) (n : ℕ)
    → length old ≡ n
    → length bytes ≡ n
    → n < 255
    → write_packet (old ++ 0 ∷ v ∷ r) bytes n ≡ ok (stuff bytes ++ 0 ∷ r, n + 2)
unfolding write_packet
write_packet_lem bytes old v r n eo eb small =
    rw (stores-append [] bytes old (0 ∷ v ∷ r) 0 refl (omega arith)) (
      ap (encode_cobs 256 (bytes ++ 0 ∷ v ∷ r)) (sym eb)
      ∙ encode_cobs_lem bytes v r (omega arith)
      ∙ ap (λ (k : ℕ). ok (stuff bytes ++ 0 ∷ r, k + 2)) eb)

-- Where the bytes are one fewer than the stated size, the byte that was in the array is sent last.
pub write_packet-short :
    (bytes old : List ℕ) (z v : ℕ) (r : List ℕ) (n : ℕ)
    → length old ≡ length bytes
    → length bytes + 1 ≡ n
    → n < 255
    → write_packet (old ++ z ∷ 0 ∷ v ∷ r) bytes n ≡ ok (stuff (bytes ++ z ∷ []) ++ 0 ∷ r, n + 2)
unfolding write_packet
write_packet-short bytes old z v r n eo eb small =
    let size : length (bytes ++ z ∷ []) ≡ n = omega (arith, length-append bytes (z ∷ [])) in
    rw (stores-append [] bytes old (z ∷ 0 ∷ v ∷ r) 0 refl eo) (
      ap (λ (k : ℕ). encode_cobs 256 (bytes ++ z ∷ 0 ∷ v ∷ r) k) (sym size)
      ∙ ap (λ b. encode_cobs 256 b (length (bytes ++ z ∷ []))) (sym (append_assoc bytes (z ∷ []) _))
      ∙ encode_cobs_lem (bytes ++ z ∷ []) v r (omega arith)
      ∙ ap (λ (k : ℕ). ok (stuff (bytes ++ z ∷ []) ++ 0 ∷ r, k + 2)) size)

pub write_packet_total :
    (b bytes : List ℕ) (n : ℕ)
    → length bytes ≤ n
    → n < 255
    → n + 2 ≤ length b
    → (b' : List ℕ) × (write_packet b bytes n ≡ ok (b', n + 2)) × (length b' ≡ length b)
unfolding write_packet
write_packet_total b bytes n le small fits =
    let (m, stored, l) = stores_total bytes b 0 (omega arith) in
    let (b', coded, l') = encode_cobs_total m n small (omega arith) in
    (b', rw stored coded, omega arith)

pub write_packet_fault :
    (b bytes : List ℕ) (n : ℕ)
    → length bytes ≤ n
    → n ≤ length b
    → n < 255
    → length b < n + 2
    → write_packet b bytes n ≡ fault
unfolding write_packet
write_packet_fault b bytes n le fits small short =
    let (m, stored, l) = stores_total bytes b 0 (omega arith) in
    rw stored (encode_cobs_fault m n small (omega arith))
