-- ===== src/Packet/Header/Safety.antt =====
-- `ReadPacketHeader` on an arbitrary array.
use lame.Prelude.{
  ℕ, ◌-◌, ◌%◌, ◌≤◌, ◌<◌, ◌≡◌, ◌≢◌, refl, ◌∙◌, ap, inl, inr, List, length, Option, none, some, arith,
  false, ok, load, load_total, ◌==◌, Bool-cases, ==_iff, le→not_ltb, lt→ltb,
}
use native.Mathlib.Decide.{dec_lt}
use lame.Packet.Cobs.Total.{decode_cobs_total}
use lame.Packet.Header.{
  HeaderRead, rejected, load_last, write_opcode, write_payload_ptr, accept, check_packet,
  read_packet_header,
}

-- Either 0 is returned and no out-parameter is written; or the array begins with the header byte,
-- ends at the returned length with the end byte, and the out-parameters are the opcode byte and the
-- pointer behind the size byte, NULL if the length is the smallest.
pub data Verdict (op : Option ℕ) (ptr : Option (Option ℕ)) (h : HeaderRead) : Type 0 where
  refused : h.result ≡ 0 → h.opcode ≡ op → h.payload_ptr ≡ ptr → Verdict op ptr h
  accepted :
      0 < h.result
      → load h.buffer 0 ≡ ok 0xab
      → load h.buffer (h.result - 1) ≡ ok 0x7f
      → write_opcode h.buffer op ≡ ok h.opcode
      → h.payload_ptr ≡ write_payload_ptr h.result ptr
      → Verdict op ptr h

write_opcode_total :
    (b : List ℕ) (op : Option ℕ) → 1 < length b → (op' : Option ℕ) × (write_opcode b op ≡ ok op')
unfolding write_opcode
write_opcode_total b none h = (none, refl)
write_opcode_total b (some old) h = let (o, loaded) = load_total b 1 h in (some o, rw loaded)

abbrev Checked : List ℕ → ℕ → Option ℕ → Option (Option ℕ) → HeaderRead → Type 0
Checked b n op ptr h = (length h.buffer ≡ length b) × (h.result ≤ n) × Verdict op ptr h

check_packet_total :
    (b : List ℕ) (n : ℕ) (op : Option ℕ) (ptr : Option (Option ℕ))
    → 4 ≤ length b
    → n ≤ length b
    → (n ≡ 0 → load b 0 ≡ ok 0)
    → (h : HeaderRead) × (check_packet b n op ptr ≡ ok h) × Checked b n op ptr h
unfolding check_packet accept load_last
check_packet_total b n op ptr four fits empty =
    let (first, loaded) = load_total b 0 (omega arith) in
    elim (Bool-cases (first == 0xab)) [
      | inr other ↦
          (rejected b op ptr, rw (loaded, other), (refl, omega arith, refused refl refl refl))
      | inl header ↦
          let nonzero : n ≢ 0 = λ z. ground (arith, empty z, loaded) in
          let (last, loaded') = load_total b (n - 1) (omega arith) in
          let positive : (n == 0) ≡ false = ground arith in
          let (op', written) = write_opcode_total b op (omega arith) in
          elim (Bool-cases (last == 0x7f)) [
            | inr open_end ↦ (
              rejected b op ptr,
              rw (loaded, header, positive, loaded', open_end),
              (refl, omega arith, refused refl refl refl),
            )
            | inl closed ↦ (
              record {
                buffer = b;
                result = n;
                opcode = op';
                payload_ptr = write_payload_ptr n ptr;
              },
              rw (loaded, header, positive, loaded', closed, written),
              (
                refl,
                omega arith,
                accepted (omega arith) (loaded ∙ ap ok ((==_iff first 0xab).0 header))
                    (loaded' ∙ ap ok ((==_iff last 0x7f).0 closed)) written refl,
              ),
            )
          ]
    ]

-- Whatever bytes arrive, `ReadPacketHeader` on an array with at least `n` places, `n` a `uint8_t`,
-- ends without leaving the array, keeps the array's size, returns at most `n`, and its verdict is
-- sound: see `Verdict`. In particular `buffer[length - 1]` is never read at index -1.
pub read_packet_header_total :
    (b : List ℕ) (n : ℕ) (op : Option ℕ) (ptr : Option (Option ℕ))
    → n < 256
    → n ≤ length b
    → (h : HeaderRead) × (read_packet_header (some b) n op ptr ≡ ok h) × Checked b n op ptr h
unfolding read_packet_header
read_packet_header_total b n op ptr byte fits = elim (dec_lt n 4) [
  | yes short ↦
      (rejected b op ptr, rw (lt→ltb n 4 short), (refl, omega arith, refused refl refl refl))
  | no long ↦
      let (b', j, decoded, l, le, z) = decode_cobs_total b n (omega arith) fits in
      let (h, e, (l', le', v)) =
        check_packet_total b' j op ptr (omega arith) (omega arith)
          (λ q. (rw q at (z (omega arith)))) in
      let wraps : j % 256 ≡ j = omega arith in
      (h, rw (le→not_ltb n 4 (omega arith), decoded, wraps) e, (omega arith, omega arith, v))
]
