-- ===== src/Packet/Cobs/Decode.antt =====
-- The in-place loop of `decodeCOBS` undoes the reference.
use mathlib.Core.List.{append_assoc}
use lame.Prelude.{
  ℕ, zero, suc, ◌+◌, ◌-◌, ◌%◌, ◌≤◌, ◌<◌, ◌≡◌, ◌≢◌, refl, sym, ap, ◌∙◌, List, [], ◌∷◌, ◌++◌, length,
  length-append, arith, false, ok, load, load_at, store, store_at, lt→ltb, le→not_ltb, All,
  All-append, ◌==◌,
}
use lame.Packet.Cobs.{decode_step, go_on, decode_loop, decode_cobs}
use lame.Packet.Cobs.Reference.{stuff_run, stuff}

abbrev Nonzero : List ℕ → Type 0
Nonzero = All (λ b. b ≢ 0)

test-nonzero : (b : ℕ) → b ≢ 0 → (b == 0) ≡ false
test-nonzero b h = ground arith

-- Inside a run a byte moves one place to the left.
decode_step-run :
    (done : List ℕ) (st b : ℕ) (t : List ℕ) (i s : ℕ)
    → b ≢ 0
    → i ≡ length done
    → i + 1 < s
    → decode_step i s (done ++ st ∷ b ∷ t) ≡ ok (go_on (done ++ b ∷ b ∷ t) s)
unfolding decode_step
decode_step-run done st b t i s h ei inside =
    let loaded : load (done ++ st ∷ b ∷ t) (i + 1) ≡ ok b =
      load_at (done ++ st ∷ []) b t (sym (append_assoc done (st ∷ []) _))
        (omega (arith, length-append done (st ∷ []))) in
    let stored : store (done ++ st ∷ b ∷ t) i b ≡ ok (done ++ b ∷ b ∷ t) =
      store_at done st (b ∷ t) b refl ei in
    rw (loaded, lt→ltb (i + 1) s inside, stored, test-nonzero b h)

-- At the end of a run the next block's length is read, and a zero takes its place.
decode_step-code :
    (done : List ℕ) (st c : ℕ) (t : List ℕ) (i s : ℕ)
    → c ≢ 0
    → i ≡ length done
    → s ≡ i + 1
    → i + 1 + c < 256
    → decode_step i s (done ++ st ∷ c ∷ t) ≡ ok (go_on (done ++ 0 ∷ c ∷ t) (i + 1 + c))
unfolding decode_step
decode_step-code done st c t i s h ei es small =
    let loaded : load (done ++ st ∷ c ∷ t) (i + 1) ≡ ok c =
      load_at (done ++ st ∷ []) c t (sym (append_assoc done (st ∷ []) _))
        (omega (arith, length-append done (st ∷ []))) in
    let stored : store (done ++ st ∷ c ∷ t) i 0 ≡ ok (done ++ 0 ∷ c ∷ t) =
      store_at done st (c ∷ t) 0 refl ei in
    let wraps : (s + c) % 256 ≡ i + 1 + c = omega arith in
    rw (loaded, le→not_ltb (i + 1) s (omega arith), stored, test-nonzero c h, wraps)

decode_loop_go :
    (k i s : ℕ) (b : List ℕ) {b' : List ℕ} {s' : ℕ}
    → decode_step i s b ≡ ok (go_on b' s')
    → decode_loop (suc k) i s b ≡ decode_loop k (i + 1) s' b'
unfolding decode_loop
decode_loop_go k i s b e = rw e

-- A whole run. Behind it the array still holds a byte `st` that has been read.
decode_run :
    (run done : List ℕ) (st : ℕ) (t : List ℕ) (k rounds i j s : ℕ)
    → Nonzero run
    → i ≡ length done
    → j ≡ i + length run
    → s ≡ j + 1
    → rounds ≡ length run + k
    → (st' : ℕ) × (decode_loop rounds i s (done ++ st ∷ (run ++ t))
        ≡ decode_loop k j s (done ++ (run ++ st' ∷ t)))
decode_run [] done st t k rounds i j s h ei ej es er =
    let same : rounds ≡ k = omega arith in let here : i ≡ j = omega arith in (st, rw (same, here))
decode_run (b ∷ run) done st t k zero i j s h ei ej es er = absurd (omega arith)
decode_run (b ∷ run) done st t k (suc rounds) i j s h ei ej es er =
    let (st', rest) =
      decode_run run (done ++ b ∷ []) b t k rounds (i + 1) j s h.1
        (omega (arith, length-append done (b ∷ []))) (omega arith) es (omega arith) in
    (
      st',
      decode_loop_go rounds i s _ (decode_step-run done st b (run ++ t) i s h.0 ei (omega arith))
          ∙ (rw (append_assoc, append_assoc) at rest),
    )

-- A whole run, and the length of the block behind it.
decode_block :
    (run done : List ℕ) (st c : ℕ) (t : List ℕ) (k rounds i j s : ℕ)
    → Nonzero run
    → c ≢ 0
    → i ≡ length done
    → j ≡ i + length run
    → s ≡ j + 1
    → rounds ≡ length run + suc k
    → j + 1 + c < 256
    → decode_loop rounds i s (done ++ st ∷ (run ++ c ∷ t))
      ≡ decode_loop k (j + 1) (j + 1 + c) ((done ++ (run ++ 0 ∷ [])) ++ c ∷ t)
decode_block run done st c t k rounds i j s h hc ei ej es er small =
    let (st', moved) = decode_run run done st (c ∷ t) (suc k) rounds i j s h ei ej es er in
    let coded = decode_loop_go k j s ((done ++ run) ++ st' ∷ c ∷ t) (
      decode_step-code (done ++ run) st' c t j s hc (omega (arith, length-append done run)) es
        small) in
    moved
    ∙ (rw (append_assoc, append_assoc) at coded)
    ∙ ap (decode_loop k (j + 1) (j + 1 + c)) (rw (append_assoc, append_assoc))

-- The code begins with the length of its first block.
pub stuff_run-cons :
    (run xs : List ℕ)
    → (c : ℕ) × (t : List ℕ) × (stuff_run run xs ≡ suc c ∷ t) × (c ≤ length run + length xs)
unfolding stuff_run
stuff_run-cons run [] = (length run, run, refl, omega arith)
stuff_run-cons run (zero ∷ xs) = (length run, run ++ stuff_run [] xs, refl, omega arith)
stuff_run-cons run (suc b ∷ xs) =
    let (c, t, e, l) = stuff_run-cons (run ++ suc b ∷ []) xs in
    (c, t, e, omega (arith, length-append run (suc b ∷ [])))

-- The loop from the start of a block, whose length has been read.
decode_loop_lem :
    (xs run done r : List ℕ) (c : ℕ) (t : List ℕ) (rounds i s : ℕ)
    → Nonzero run
    → stuff_run run xs ≡ c ∷ t
    → i ≡ length done
    → s ≡ i + c
    → rounds ≡ length run + length xs
    → i + rounds < 254
    → (st : ℕ) × (decode_loop rounds i s (done ++ (stuff_run run xs ++ r))
        ≡ ok (done ++ (run ++ (xs ++ st ∷ r)), i + rounds))
unfolding stuff_run decode_loop
decode_loop_lem [] run done r c t rounds i s h e ei es er small =
    let code : suc (length run) ≡ c = cc in
    let (st, moved) =
      decode_run run done (suc (length run)) r 0 rounds i (i + rounds) s h ei (omega arith)
        (omega arith) (omega arith) in
    (st, moved)
decode_loop_lem (zero ∷ xs) run done r c t rounds i s h e ei es er small =
    let code : suc (length run) ≡ c = cc in
    let j : ℕ = i + length run in
    let (c', t', e', l) = stuff_run-cons [] xs in
    let block =
      decode_block run done (suc (length run)) (suc c') (t' ++ r) (length xs) rounds i j s h
        (λ q. omega arith) ei refl (omega arith) (omega arith) (omega arith) in
    let (st, rest) =
      decode_loop_lem xs [] (done ++ (run ++ 0 ∷ [])) r (suc c') t' (length xs) (j + 1)
        (j + 1 + suc c') tt e'
        (omega (arith, length-append done (run ++ 0 ∷ []), length-append run (0 ∷ []))) refl
        (omega arith) (omega arith) in
    let count : j + 1 + length xs ≡ i + rounds = omega arith in
    let regroup : (done ++ (run ++ 0 ∷ [])) ++ (xs ++ st ∷ r)
        ≡ done ++ (run ++ 0 ∷ (xs ++ st ∷ r)) =
      rw (append_assoc, append_assoc) in
    (
      st,
      rw (append_assoc run (stuff_run [] xs) r, e') (block ∙ (rw e' at rest) ∙ rw (regroup, count)),
    )
decode_loop_lem (suc b ∷ xs) run done r c t rounds i s h e ei es er small =
    let (st, rest) =
      decode_loop_lem xs (run ++ suc b ∷ []) done r c t rounds i s
        (All-append _ run (suc b ∷ []) h ((λ q. omega arith), tt)) e ei es
        (omega (arith, length-append run (suc b ∷ []))) small in
    (st, rest ∙ ap (λ l. ok (done ++ l, i + rounds)) (append_assoc run (suc b ∷ []) _))

decode_cobs_start :
    (b : List ℕ) (n c rounds : ℕ)
    → load b 0 ≡ ok c
    → n - 2 ≡ rounds
    → decode_cobs b n ≡ decode_loop rounds 0 c b
unfolding decode_cobs
decode_cobs_start b n c rounds first count = rw (first, count)

-- On the code of `xs` and a zero, `decodeCOBS` with the number of those bytes gives back `xs` at the
-- front of the array and returns their number. The place behind them keeps a byte that has been
-- read, and the rest of the array stays.
pub decode_cobs_lem :
    (xs r : List ℕ)
    → length xs < 254
    → (st : ℕ) × (decode_cobs (stuff xs ++ r) (length xs + 2) ≡ ok (xs ++ st ∷ r, length xs))
unfolding stuff
decode_cobs_lem xs r small =
    let (c, t, e, l) = stuff_run-cons [] xs in
    let (st, loop) =
      decode_loop_lem xs [] [] r (suc c) t (length xs) 0 (suc c) tt e refl (omega arith)
        (omega arith) (omega arith) in
    let first : load (stuff_run [] xs ++ r) 0 ≡ ok (suc c) =
      load_at [] (suc c) (t ++ r) (rw e) refl in
    let count : 0 + length xs ≡ length xs = omega arith in
    (
      st,
      decode_cobs_start _ _ _ _ first (omega arith)
          ∙ loop
          ∙ ap (λ (n : ℕ). ok (xs ++ st ∷ r, n)) count,
    )
