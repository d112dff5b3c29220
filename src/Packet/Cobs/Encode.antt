-- ===== src/Packet/Cobs/Encode.antt =====
-- The in-place loop of `encodeCOBS` of Robot/include/Packet.h and the reference.
use mathlib.Core.List.{append_assoc, reverse, reverse-cons, reverse-reverse}
use lame.Prelude.{
  ℕ, zero, suc, ◌+◌, ◌-◌, ◌%◌, ◌≤◌, ◌<◌, ◌≡◌, refl, sym, ap, ◌∙◌, List, [], ◌∷◌, ◌++◌, length,
  length-append, arith, false, ok, ◌==◌, load, store, load_at, store_at, store-append, le→leb,
  lt→not_leb,
}
use lame.Packet.Cobs.{shift_right, close_block, encode_step, encode_loop, encode_cobs}
use lame.Packet.Cobs.Reference.{stuff_run, stuff, length-stuff}

length-reverse : (run : List ℕ) → length (reverse run) ≡ length run
length-reverse [] = refl
length-reverse (b ∷ run) =
    let split = length-append (reverse run) (b ∷ []) in
    omega (arith, split, length-reverse run, ap length (reverse-cons b run))

-- The inner loop moves a run one place to the right, over the byte `z` behind it.
shift_right-reverse :
    (out rs : List ℕ) (z : ℕ) (r : List ℕ)
    → (h : ℕ) × (shift_right (length rs) (length out) (out ++ (reverse rs ++ z ∷ r))
        ≡ ok (out ++ h ∷ (reverse rs ++ r)))
unfolding shift_right
shift_right-reverse out [] z r = (z, refl)
shift_right-reverse out (b ∷ rs) z r =
    let (h, ih) = shift_right-reverse out rs b (b ∷ r) in
    (h, rw (reverse-cons b rs, append_assoc, append_assoc, loaded, stored) ih)
  where
    loaded : load (out ++ (reverse rs ++ b ∷ z ∷ r)) (length out + length rs) ≡ ok b
    loaded =
        load_at (out ++ reverse rs) b (z ∷ r) (rw append_assoc)
          (omega (arith, length-append out (reverse rs), length-reverse rs))

    stored :
        store (out ++ (reverse rs ++ b ∷ z ∷ r)) (length out + suc (length rs)) b
        ≡ ok (out ++ (reverse rs ++ b ∷ b ∷ r))
    stored =
        store_at (out ++ (reverse rs ++ b ∷ [])) z r b (rw (append_assoc, append_assoc)) (
          omega (
            arith,
            length-append out (reverse rs ++ b ∷ []),
            length-append (reverse rs) (b ∷ []),
            length-reverse rs,
          ))
        ∙ ap ok (rw (append_assoc, append_assoc))

shift_right_lem :
    (out run : List ℕ) (z : ℕ) (r : List ℕ)
    → (h : ℕ) × (shift_right (length run) (length out) (out ++ (run ++ z ∷ r))
        ≡ ok (out ++ h ∷ (run ++ r)))
shift_right_lem out run z r =
    let (h, e) = shift_right-reverse out (reverse run) z r in
    (h, rw (reverse-reverse run, length-reverse run) at e)

-- At a zero the loop puts the run's length plus one in front of it.
close_block_lem :
    (out run : List ℕ) (z : ℕ) (r : List ℕ) {b : List ℕ} {i s : ℕ}
    → b ≡ out ++ (run ++ z ∷ r)
    → i ≡ length out + length run
    → s ≡ length out
    → i < 255
    → close_block i s b ≡ ok (out ++ suc (length run) ∷ (run ++ r), i + 1)
unfolding close_block
close_block_lem out run z r {i} {s} eb ei es small =
    let (h, shifted) = shift_right_lem out run z r in
    let rounds : i - s ≡ length run = omega arith in
    let code : (i + 1 - s) % 256 ≡ suc (length run) = omega arith in
    let next : (i + 1) % 256 ≡ i + 1 = omega arith in
    rw (eb, rounds, code, next, es, shifted, store-append out h (run ++ r) _)

encode_step-zero :
    (out run r : List ℕ) {b : List ℕ} {i s : ℕ}
    → b ≡ out ++ (run ++ 0 ∷ r)
    → i ≡ length out + length run
    → s ≡ length out
    → i < 255
    → encode_step i s b ≡ ok (out ++ suc (length run) ∷ (run ++ r), i + 1)
unfolding encode_step
encode_step-zero out run r {i} eb ei es small =
    rw
      (load_at (out ++ run) 0 r {i = i} (eb ∙ sym (append_assoc out run _))
        (omega (arith, length-append out run)))
      (close_block_lem out run 0 r eb ei es small)

encode_step-suc :
    (out run : List ℕ) (c : ℕ) (r : List ℕ) {b : List ℕ} {i s : ℕ}
    → b ≡ out ++ (run ++ suc c ∷ r)
    → i ≡ length out + length run
    → encode_step i s b ≡ ok (b, s)
unfolding encode_step
encode_step-suc out run c r {b} {i} eb ei =
    let loaded : load b i ≡ ok (suc c) =
      load_at (out ++ run) (suc c) r (eb ∙ sym (append_assoc out run _))
        (omega (arith, length-append out run)) in
    let nonzero : (suc c == 0) ≡ false = ground arith in rw (loaded, nonzero)

pub encode_loop_step :
    (fuel n i s : ℕ) (b : List ℕ) {b' : List ℕ} {s' : ℕ}
    → i ≤ n
    → i < 255
    → encode_step i s b ≡ ok (b', s')
    → encode_loop (suc fuel) n i s b ≡ encode_loop fuel n (i + 1) s' b'
unfolding encode_loop
encode_loop_step fuel n i s b h small e =
    let wraps : (i + 1) % 256 ≡ i + 1 = omega arith in
    rw (le→leb i n h, encode_loop) (rw (e, wraps))

pub encode_loop_end : (fuel n i s : ℕ) (b : List ℕ) → n < i → encode_loop (suc fuel) n i s b ≡ ok b
unfolding encode_loop
encode_loop_end fuel n i s b h = rw (lt→not_leb i n h, encode_loop)

-- The loop from index `i`, with `out` written, `run` read since the last zero and `xs` to come, of
-- which the last is the byte behind the data.
encode_loop_lem :
    (xs out run r b : List ℕ) (i s fuel n : ℕ)
    → b ≡ out ++ (run ++ (xs ++ 0 ∷ r))
    → i ≡ length out + length run
    → s ≡ length out
    → n ≡ i + length xs
    → n < 255
    → length xs + 1 < fuel
    → encode_loop fuel n i s b ≡ ok (out ++ (stuff_run run xs ++ r))
unfolding stuff_run
encode_loop_lem xs out run r b i s zero n eb ei es en small enough = absurd (omega arith)
encode_loop_lem [] out run r b i s (suc zero) n eb ei es en small enough = absurd (omega arith)
encode_loop_lem [] out run r b i s (suc (suc fuel)) n eb ei es en small enough =
    encode_loop_step (suc fuel) n i s b (omega arith) (omega arith)
      (encode_step-zero out run r eb ei es (omega arith))
    ∙ encode_loop_end fuel n (i + 1) _ _ (omega arith)
encode_loop_lem (zero ∷ xs) out run r b i s (suc fuel) n eb ei es en small enough =
    let front = length-append out (suc (length run) ∷ run) in
    encode_loop_step fuel n i s b (omega arith) (omega arith)
      (encode_step-zero out run (xs ++ 0 ∷ r) eb ei es (omega arith))
    ∙ encode_loop_lem xs (out ++ suc (length run) ∷ run) [] r _ (i + 1) (i + 1) fuel n
        (rw append_assoc) (omega (arith, front)) (omega (arith, front)) (omega arith) small
        (omega arith)
    ∙ ap ok (rw (append_assoc, append_assoc))
encode_loop_lem (suc c ∷ xs) out run r b i s (suc fuel) n eb ei es en small enough =
    encode_loop_step fuel n i s b (omega arith) (omega arith)
      (encode_step-suc out run c (xs ++ 0 ∷ r) eb ei)
    ∙ encode_loop_lem xs out (run ++ suc c ∷ []) r b (i + 1) s fuel n
        (eb ∙ ap (◌++◌ out) (sym (append_assoc run (suc c ∷ []) _)))
        (omega (arith, length-append run (suc c ∷ []))) es (omega arith) small (omega arith)

-- On an array that holds the data `xs`, a zero, and one more place, `encodeCOBS` ends, within 256
-- rounds, without leaving the array: it writes the code of `xs` and a zero, returns the number of
-- bytes written, and leaves the rest of the array as it was.
pub encode_cobs_lem :
    (xs : List ℕ) (v : ℕ) (r : List ℕ)
    → length xs < 255
    → encode_cobs 256 (xs ++ 0 ∷ v ∷ r) (length xs) ≡ ok (stuff xs ++ 0 ∷ r, length xs + 2)
unfolding encode_cobs stuff
encode_cobs_lem xs v r small = rw (
  encode_loop_lem xs [] [] (v ∷ r) (xs ++ 0 ∷ v ∷ r) 0 0 256 (length xs) refl (omega arith) refl
      (omega arith) small (omega arith),
  store_at (stuff_run [] xs) v r 0 {i = length xs + 1} refl (omega (arith, length-stuff xs)),
)
