-- ===== src/Packet/Header/Accept.antt =====
-- `ReadPacketHeader` on the code of a packet.
use mathlib.Core.List.{append_assoc}
use lame.Prelude.{
  ℕ, ◌+◌, ◌%◌, ◌≤◌, ◌<◌, ◌≡◌, ◌≢◌, refl, sym, ◌∙◌, ap, List, [], ◌∷◌, ◌++◌, length, length-append,
  Option, some, arith, false, ok, load, load_at, ◌==◌, le→not_ltb, lt→ltb, Bool-cases, inl, inr,
}
use lame.Packet.Cobs.Reference.{stuff, length-stuff}
use lame.Packet.Cobs.Decode.{decode_cobs_lem}
use lame.Packet.Header.{
  rejected, load_last, write_opcode, write_payload_ptr, accept, check_packet, read_packet_header,
}

-- A packet with the opcode `op`: `body` is the size byte and the payload.
abbrev pub framed : ℕ → List ℕ → List ℕ
framed op body = 0xab ∷ op ∷ (body ++ 0x7f ∷ [])

-- The bytes that are sent for it, and how many.
abbrev pub sent_bytes : ℕ → List ℕ → List ℕ
sent_bytes op body = stuff (framed op body) ++ 0 ∷ []

pub length-sent_bytes : (op : ℕ) (body : List ℕ) → length (sent_bytes op body) ≡ length body + 5
length-sent_bytes op body = omega (
  arith,
  length-append (stuff (framed op body)) (0 ∷ []),
  length-stuff (framed op body),
  length-append body (0x7f ∷ []),
)

read-stuff :
    (xs r : List ℕ) (op : Option ℕ) (ptr : Option (Option ℕ))
    → 2 ≤ length xs
    → length xs < 254
    → (st : ℕ) × (read_packet_header (some (stuff xs ++ r)) (length xs + 2) op ptr
        ≡ check_packet (xs ++ st ∷ r) (length xs) op ptr)
unfolding read_packet_header
read-stuff xs r op ptr long small =
    let (st, decoded) = decode_cobs_lem xs r small in
    let wraps : length xs % 256 ≡ length xs = omega arith in
    (
      st,
      rw (le→not_ltb (length xs + 2) 4 (omega arith), decoded)
          (ap (λ n. check_packet (xs ++ st ∷ r) n op ptr) wraps),
    )

load_last-snoc :
    (xs : List ℕ) (z : ℕ) (r : List ℕ) (n : ℕ)
    → n ≡ length xs + 1
    → load_last (xs ++ z ∷ r) n ≡ ok z
unfolding load_last
load_last-snoc xs z r n e =
    let positive : (n == 0) ≡ false = ground arith in
    rw positive (load_at xs z r refl (omega arith))

check_packet-framed :
    (op : ℕ) (body r : List ℕ) (n old : ℕ) (ptr : Option (Option ℕ))
    → n ≡ length body + 3
    → check_packet (framed op body ++ r) n (some old) ptr
      ≡ ok (record {
        buffer = framed op body ++ r;
        result = n;
        opcode = some op;
        payload_ptr = write_payload_ptr n ptr;
      })
unfolding check_packet accept write_opcode load
check_packet-framed op body r n old ptr e =
    let last : load_last (framed op body ++ r) n ≡ ok 0x7f =
      rw (append_assoc) (load_last-snoc (0xab ∷ op ∷ body) 0x7f r n (omega arith)) in
    rw last

-- The code of a packet is accepted, with its opcode and its payload pointer; the packet stands
-- decoded at the front of the array.
pub read-framed :
    (op : ℕ) (body r : List ℕ) (n old : ℕ) (ptr : Option (Option ℕ))
    → length body < 251
    → n ≡ length body + 3
    → (st : ℕ) × (read_packet_header (some (stuff (framed op body) ++ r)) (n + 2) (some old) ptr
        ≡ ok (record {
          buffer = framed op body ++ st ∷ r;
          result = n;
          opcode = some op;
          payload_ptr = write_payload_ptr n ptr;
        }))
read-framed op body r n old ptr small e =
    let size : length (framed op body) ≡ n = omega (arith, length-append body (0x7f ∷ [])) in
    let (st, read) = read-stuff (framed op body) r (some old) ptr (omega arith) (omega arith) in
    (
      st,
      ap (λ k. read_packet_header (some (stuff (framed op body) ++ r)) (k + 2) (some old) ptr)
            (sym size)
          ∙ read
          ∙ ap (λ k. check_packet (framed op body ++ st ∷ r) k (some old) ptr) size
          ∙ check_packet-framed op body (st ∷ r) n old ptr e,
    )

check_packet-unended :
    (xs : List ℕ) (z : ℕ) (r : List ℕ) (n : ℕ) (op : Option ℕ) (ptr : Option (Option ℕ))
    → z ≢ 0x7f
    → 1 ≤ length xs
    → n ≡ length xs + 1
    → check_packet (xs ++ z ∷ r) n op ptr ≡ ok (rejected (xs ++ z ∷ r) op ptr)
unfolding check_packet load
check_packet-unended [] z r n op ptr open_end long e = absurd (omega arith)
check_packet-unended (x ∷ xs) z r n op ptr open_end long e =
    let last : load_last (x ∷ (xs ++ z ∷ r)) n ≡ ok z = load_last-snoc (x ∷ xs) z r n e in
    let other : (z == 0x7f) ≡ false = ground arith in
    elim (Bool-cases (x == 0xab)) [
      | inl header ↦ rw (header, last, other)
      | inr foreign ↦ rw foreign
    ]

-- The code of bytes of which the last is not the end byte is refused.
pub read-unended :
    (xs : List ℕ) (z : ℕ) (r : List ℕ) (n : ℕ) (op : Option ℕ) (ptr : Option (Option ℕ))
    → z ≢ 0x7f
    → 1 ≤ length xs
    → length xs < 253
    → n ≡ length xs + 1
    → (b : List ℕ) × (read_packet_header (some (stuff (xs ++ z ∷ []) ++ r)) (n + 2) op ptr
        ≡ ok (rejected b op ptr))
read-unended xs z r n op ptr open_end long small e =
    let size : length (xs ++ z ∷ []) ≡ n = omega (arith, length-append xs (z ∷ [])) in
    let (st, read) = read-stuff (xs ++ z ∷ []) r op ptr (omega arith) (omega arith) in
    (
      xs ++ z ∷ st ∷ r,
      ap (λ k. read_packet_header (some (stuff (xs ++ z ∷ []) ++ r)) (k + 2) op ptr) (sym size)
          ∙ read
          ∙ ap (λ k. check_packet ((xs ++ z ∷ []) ++ st ∷ r) k op ptr) size
          ∙ rw append_assoc (check_packet-unended xs z (st ∷ r) n op ptr open_end long e),
    )

-- Fewer than four bytes are refused.
pub read-short :
    (b : List ℕ) (n : ℕ) (op : Option ℕ) (ptr : Option (Option ℕ))
    → n < 4
    → read_packet_header (some b) n op ptr ≡ ok (rejected b op ptr)
unfolding read_packet_header
read-short b n op ptr short = rw (lt→ltb n 4 short)
