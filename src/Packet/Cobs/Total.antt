-- ===== src/Packet/Cobs/Total.antt =====
-- `decodeCOBS` of Robot/include/Packet.h on any array.
use lame.Prelude.{
  ℕ, zero, suc, ◌+◌, ◌-◌, ◌≤◌, ◌<◌, ◌≡◌, refl, ◌∙◌, inl, inr, List, length, arith, ok, load,
  load_total, store_total, ltb, ◌==◌, Bool-cases, u8, ==_iff, ap,
}
use lame.Packet.Cobs.{Progress, stop, go_on, decode_step, decode_loop, decode_cobs}

-- An iteration within the array keeps its size; where it stops it has left a zero at its index.
abbrev Stepped : List ℕ → ℕ → Progress → Type 0
Stepped b i (stop b') = (length b' ≡ length b) × (load b' i ≡ ok 0)
Stepped b i (go_on b' s) = length b' ≡ length b

decode_step_total :
    (i s : ℕ) (b : List ℕ)
    → i + 1 < length b
    → (p : Progress) × (decode_step i s b ≡ ok p) × Stepped b i p
unfolding decode_step
decode_step_total i s b h =
    let (v, loaded) = load_total b (i + 1) h in
    let (m, moved, same, at_m) = store_total b i v (omega arith) in
    let (z, cleared, same', at_z) = store_total b i 0 (omega arith) in
    elim (Bool-cases (ltb (i + 1) s)) [
      | inl inside ↦ elim (Bool-cases (v == 0)) [
        | inl null ↦
            (stop m, rw (loaded, inside, moved, null), (same, at_m ∙ ap ok ((==_iff v 0).0 null)))
        | inr byte ↦ (go_on m s, rw (loaded, inside, moved, byte), same)
      ]
      | inr outside ↦ elim (Bool-cases (v == 0)) [
        | inl null ↦ (stop z, rw (loaded, outside, cleared, null), (same', at_z))
        | inr byte ↦ (go_on z (u8 (s + v)), rw (loaded, outside, cleared, byte), same')
      ]
    ]

-- The loop ends within the array, at an index between its first and its last; if before the last,
-- a zero stands there.
abbrev Ended : List ℕ → ℕ → ℕ → List ℕ → ℕ → Type 0
Ended b i rounds b' j =
    (length b' ≡ length b) × (i ≤ j) × (j ≤ i + rounds) × (j < i + rounds → load b' j ≡ ok 0)

decode_loop_total :
    (rounds i s : ℕ) (b : List ℕ)
    → i + rounds < length b
    → (b' : List ℕ) × (j : ℕ) × (decode_loop rounds i s b ≡ ok (b', j)) × Ended b i rounds b' j
unfolding decode_loop
decode_loop_total zero i s b h =
    (b, i, refl, (refl, omega arith, omega arith, λ l. absurd (omega arith)))
decode_loop_total (suc rounds) i s b h =
    next (decode_step_total i s b (omega arith))
      (λ b' s' l. decode_loop_total rounds (i + 1) s' b' (omega arith))
  where
    next :
        ((p : Progress) × (decode_step i s b ≡ ok p) × Stepped b i p)
        → ((b' : List ℕ) (s' : ℕ)
            → length b' ≡ length b
            → (b'' : List ℕ) × (j : ℕ) × (decode_loop rounds (i + 1) s' b' ≡ ok (b'', j))
              × Ended b' (i + 1) rounds b'' j)
        → (b' : List ℕ) × (j : ℕ) × (decode_loop (suc rounds) i s b ≡ ok (b', j))
          × Ended b i (suc rounds) b' j
    next (stop b', e, (l, z)) ih = (b', i, rw e, (l, omega arith, omega arith, λ _. z))
    next (go_on b' s', e, l) ih =
        let (b'', j, e', (l', lo, hi, z)) = ih b' s' l in
        (b'', j, rw e e', (omega arith, omega arith, omega arith, λ q. z (omega arith)))

-- On any array of at least `n ≥ 2` places, whatever it holds, `decodeCOBS` with length `n` ends
-- without leaving the array: the size of the array stays, the result is at most `n - 2`, and if it
-- is less, the array holds a zero at that index.
pub decode_cobs_total :
    (b : List ℕ) (n : ℕ)
    → 2 ≤ n
    → n ≤ length b
    → (b' : List ℕ) × (j : ℕ) × (decode_cobs b n ≡ ok (b', j))
      × (length b' ≡ length b)
      × (j ≤ n - 2)
      × (j < n - 2 → load b' j ≡ ok 0)
unfolding decode_cobs
decode_cobs_total b n two fits =
    let (c, first) = load_total b 0 (omega arith) in
    let (b', j, e, (l, lo, hi, z)) = decode_loop_total (n - 2) 0 c b (omega arith) in
    (b', j, rw first e, l, omega arith, λ q. z (omega arith))
