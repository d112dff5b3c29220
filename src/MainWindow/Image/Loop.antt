-- ===== src/MainWindow/Image/Loop.antt =====
-- The read loop of `ImageListenerThread` in BaseStation/BaseStation/MainWindow.xaml.cs.
use mathlib.Core.List.{append_assoc, append-nil}
use lame.Prelude.{
  ℕ, zero, suc, ◌+◌, ◌-◌, ◌*◌, ◌≤◌, ◌<◌, ◌≡◌, ◌⊎◌, inl, inr, sym, ap, ◌∙◌, List, [], ◌∷◌, ◌++◌,
  length, length-append, length-drop, length-take, take, drop, take-append-drop, min, arith, ok,
  lt→ltb, ◌==◌, Bool-cases, ==_iff, if◌then◌else◌, ◌>>=◌,
}
use lame.MainWindow.Image.{
  stream_read, ended, filling, read_byte, take_chunk, fill_step, receive_loop,
}

module _ (arrived : ℕ → ℕ) where
  -- What is left to show of a round that left `rest`.
  after_chunk :
      (fuel k capacity : ℕ) (all read rest : List ℕ)
      → ((capacity' : ℕ) (read' rest' : List ℕ)
          → length read' < capacity'
          → (2 ≤ capacity') ⊎ (length read' + length rest' ≤ capacity')
          → length rest' ≤ length rest
          → read' ++ rest' ≡ all
          → receive_loop fuel arrived (k + 1) capacity' read' rest' ≡ ok all)
      → read ++ rest ≡ all
      → 1 ≤ length read
      → length read ≤ capacity
      → (2 ≤ capacity) ⊎ (length read + length rest ≤ capacity)
      → length all < 1073741824
      → ((if length read == capacity
            then read_byte capacity read rest
            else ok (filling capacity read rest))
          >>= elim [
            | ended xs ↦ ok xs
            | filling capacity' read' rest' ↦
                receive_loop fuel arrived (k + 1) capacity' read' rest'
          ])
        ≡ ok all
  unfolding read_byte
  after_chunk fuel k capacity all read [] ih whole some_read fits room small =
      elim (Bool-cases (length read == capacity)) [
        | inl full ↦ rw full (ap ok (sym (append-nil read) ∙ whole))
        | inr free ↦ rw free (ih capacity read [] (ground arith) room (omega arith) whole)
      ]
  after_chunk fuel k capacity all read (b ∷ rest) ih whole some_read fits room small =
      let size = length-append read (b ∷ rest) in
      let total = ap length whole in
      elim (Bool-cases (length read == capacity)) [
        | inl full ↦
            let at_end : length read ≡ capacity = (==_iff (length read) capacity).0 full in
            let one = length-append read (b ∷ []) in
            let fits_int : capacity * 2 < 2147483648 = omega (arith, size, total) in
            rw (full, lt→ltb (capacity * 2) 2147483648 fits_int)
              (ih (capacity * 2) (read ++ b ∷ []) rest (omega (arith, one)) (inl (omega arith))
                (omega arith) (append_assoc read (b ∷ []) rest ∙ whole))
        | inr free ↦ rw free (ih capacity read (b ∷ rest) (ground arith) room (omega arith) whole)
      ]

  -- From any point of the loop with room for a byte, and whatever arrives when: with more fuel than
  -- bytes to come it ends with the bytes read and all that were to come.
  pub receive_loop_lem :
      (fuel k capacity : ℕ) (read bytes : List ℕ)
      → length read < capacity
      → (2 ≤ capacity) ⊎ (length read + length bytes ≤ capacity)
      → length read + length bytes < 1073741824
      → length bytes < fuel
      → receive_loop fuel arrived k capacity read bytes ≡ ok (read ++ bytes)
  unfolding receive_loop fill_step stream_read take_chunk
  receive_loop_lem zero k capacity read bytes free room small enough = absurd (omega arith)
  receive_loop_lem (suc fuel) k capacity read [] free room small enough =
      let none_left : min (suc (arrived k)) (min (capacity - length read) 0) ≡ 0 = omega arith in
      rw none_left (ap ok (sym (append-nil read)))
  receive_loop_lem (suc fuel) k capacity read (b ∷ bytes) free room small enough =
      let n = min (arrived k) (min (capacity - length read - 1) (length bytes)) in
      let some_left : min (suc (arrived k)) (min (capacity - length read) (suc (length bytes)))
          ≡ suc n =
        omega arith in
      let whole : (read ++ b ∷ take n bytes) ++ drop n bytes ≡ read ++ b ∷ bytes =
        append_assoc read (b ∷ take n bytes) (drop n bytes)
        ∙ ap (λ (xs : List ℕ). read ++ b ∷ xs) (take-append-drop n bytes) in
      let got = length-append read (b ∷ take n bytes) in
      let size = length-take n bytes in
      let left = length-drop n bytes in
      let total = length-append read (b ∷ bytes) in
      rw some_left (
        after_chunk fuel k capacity (read ++ b ∷ bytes) (read ++ b ∷ take n bytes) (drop n bytes)
          (λ capacity' read' rest' free' room' shorter same.
            receive_loop_lem fuel (k + 1) capacity' read' rest' free' room'
              (omega (arith, length-append read' rest', ap length same, total))
              (omega (arith, left, shorter))
            ∙ ap ok same)
          whole (omega arith) (omega arith) (omega (arith, room)) (omega arith))
