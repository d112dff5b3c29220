-- ===== src/Packet/Cobs/Reference.antt =====
-- Consistent overhead byte stuffing as a function on lists, which names no array: each maximal run
-- of nonzero bytes is preceded by its length plus one, and the zeros are dropped.
use lame.Prelude.{ℕ, zero, suc, ◌+◌, ◌≡◌, List, [], ◌∷◌, ◌++◌, length, length-append, arith}

-- The code of `xs` where the bytes of `run` stand in front of it in the same run.
unfoldable pub stuff_run : List ℕ → List ℕ → List ℕ
stuff_run run [] = suc (length run) ∷ run
stuff_run run (zero ∷ xs) = suc (length run) ∷ run ++ stuff_run [] xs
stuff_run run (suc b ∷ xs) = stuff_run (run ++ suc b ∷ []) xs

unfoldable pub stuff : List ℕ → List ℕ
unfolding stuff_run
stuff xs = stuff_run [] xs

pub length-stuff_run : (run xs : List ℕ) → length (stuff_run run xs) ≡ length run + length xs + 1
unfolding stuff_run
length-stuff_run run [] = omega arith
length-stuff_run run (zero ∷ xs) =
    omega (arith, length-append run (stuff_run [] xs), length-stuff_run [] xs)
length-stuff_run run (suc b ∷ xs) =
    omega (arith, length-stuff_run (run ++ suc b ∷ []) xs, length-append run (suc b ∷ []))

-- One byte of overhead, whatever the data.
pub length-stuff : (xs : List ℕ) → length (stuff xs) ≡ length xs + 1
unfolding stuff
length-stuff xs = omega (arith, length-stuff_run [] xs)
