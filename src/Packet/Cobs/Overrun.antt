-- ===== src/Packet/Cobs/Overrun.antt =====
-- `encodeCOBS` of Robot/include/Packet.h on any array, large enough or not.
use lame.Prelude.{
  ℕ, zero, suc, ◌+◌, ◌-◌, ◌%◌, ◌≤◌, ◌<◌, ◌≡◌, refl, ◌∙◌, inl, inr, List, length, arith, ok, fault,
  load_total, store_total, load_fault, store_fault, ◌==◌, Bool-cases, le→leb,
}
use native.Mathlib.Decide.{dec_lt, dec_le}
use lame.Packet.Cobs.{shift_right, close_block, encode_step, encode_loop, encode_cobs}
use lame.Packet.Cobs.Encode.{encode_loop_step, encode_loop_end}

shift_right_total :
    (k s : ℕ) (b : List ℕ)
    → s + k < length b
    → (b' : List ℕ) × (shift_right k s b ≡ ok b') × (length b' ≡ length b)
unfolding shift_right
shift_right_total zero s b h = (b, refl, refl)
shift_right_total (suc k) s b h =
    let (v, loaded) = load_total b (s + k) (omega arith) in
    let (m, moved, same, _) = store_total b (s + suc k) v (omega arith) in
    let (b', e, l) = shift_right_total k s m (omega arith) in
    (b', rw (loaded, moved) e, omega arith)

close_block_total :
    (i s : ℕ) (b : List ℕ)
    → s ≤ i
    → i < length b
    → i < 255
    → (b' : List ℕ) × (close_block i s b ≡ ok (b', i + 1)) × (length b' ≡ length b)
unfolding close_block
close_block_total i s b below h small =
    let (m, shifted, l) = shift_right_total (i - s) s b (omega arith) in
    let (b', coded, l', _) = store_total m s ((i + 1 - s) % 256) (omega arith) in
    let wraps : (i + 1) % 256 ≡ i + 1 = omega arith in (b', rw (shifted, coded, wraps), omega arith)

encode_step_total :
    (i s : ℕ) (b : List ℕ)
    → s ≤ i
    → i < length b
    → i < 255
    → (b' : List ℕ) × (s' : ℕ) × (encode_step i s b ≡ ok (b', s'))
      × (length b' ≡ length b)
      × (s' ≤ i + 1)
unfolding encode_step
encode_step_total i s b below h small =
    let (v, loaded) = load_total b i h in
    let (b', closed, l) = close_block_total i s b below h small in
    elim (Bool-cases (v == 0)) [
      | inl null ↦ (b', i + 1, rw (loaded, null) closed, l, omega arith)
      | inr byte ↦ (b, s, rw (loaded, byte), refl, omega arith)
    ]

encode_step_fault : (i s : ℕ) (b : List ℕ) → length b ≤ i → encode_step i s b ≡ fault
unfolding encode_step
encode_step_fault i s b h = rw (load_fault b i h)

encode_loop_total :
    (fuel n i s : ℕ) (b : List ℕ)
    → s ≤ i
    → n < length b
    → n < 255
    → i ≤ n + 1
    → n + 1 < fuel + i
    → (b' : List ℕ) × (encode_loop fuel n i s b ≡ ok b') × (length b' ≡ length b)
encode_loop_total zero n i s b below h small ends enough = absurd (omega arith)
encode_loop_total (suc fuel) n i s b below h small ends enough = elim (dec_le i n) [
  | yes more ↦
      let (b', s', e, l, le) = encode_step_total i s b below (omega arith) (omega arith) in
      let (b'', e', l') =
        encode_loop_total fuel n (i + 1) s' b' le (omega arith) small (omega arith) (omega arith) in
      (b'', encode_loop_step fuel n i s b more (omega arith) e ∙ e', omega arith)
  | no stop ↦ (b, encode_loop_end fuel n i s b (omega arith), refl)
]

encode_loop_fault :
    (fuel n i s : ℕ) (b : List ℕ)
    → s ≤ i
    → length b ≤ n
    → n < 255
    → i ≤ length b
    → length b < fuel + i
    → encode_loop fuel n i s b ≡ fault
unfolding encode_loop
encode_loop_fault zero n i s b below h small ends enough = absurd (omega arith)
encode_loop_fault (suc fuel) n i s b below h small ends enough = elim (dec_lt i (length b)) [
  | yes more ↦
      let (b', s', e, l, le) = encode_step_total i s b below more (omega arith) in
      encode_loop_step fuel n i s b (omega arith) (omega arith) e
      ∙ encode_loop_fault fuel n (i + 1) s' b' le (omega arith) small (omega arith) (omega arith)
  | no stop ↦
      rw (le→leb i n (omega arith), encode_loop) (rw (encode_step_fault i s b (omega arith)))
]

-- With two places or more behind fewer than 255 bytes of data, `encodeCOBS` ends without leaving the
-- array, whatever it holds, returns the length and two, and keeps the array's size.
pub encode_cobs_total :
    (b : List ℕ) (n : ℕ)
    → n < 255
    → n + 2 ≤ length b
    → (b' : List ℕ) × (encode_cobs 256 b n ≡ ok (b', n + 2)) × (length b' ≡ length b)
unfolding encode_cobs
encode_cobs_total b n small fits =
    let (m, looped, l) =
      encode_loop_total 256 n 0 0 b (omega arith) (omega arith) small (omega arith) (omega arith) in
    let (b', ended, l', _) = store_total m (n + 1) 0 (omega arith) in
    (b', rw (looped, ended), omega arith)

-- With fewer than two places behind fewer than 255 bytes of data, `encodeCOBS` leaves the array,
-- whatever it holds.
pub encode_cobs_fault :
    (b : List ℕ) (n : ℕ) → n < 255 → length b < n + 2 → encode_cobs 256 b n ≡ fault
unfolding encode_cobs
encode_cobs_fault b n small short = elim (dec_lt n (length b)) [
  | yes one ↦
      let (m, looped, l) =
        encode_loop_total 256 n 0 0 b (omega arith) one small (omega arith) (omega arith) in
      rw (looped, store_fault m (n + 1) 0 (omega arith))
  | no outside ↦
      rw (
        encode_loop_fault 256 n 0 0 b (omega arith) (omega arith) small (omega arith) (omega arith))
]
