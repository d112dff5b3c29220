-- ===== src/Devices/Calls.antt =====
-- The system calls that the wrappers make with a descriptor, and how often they acquire and close
-- each.
use lame.Prelude.{
  ℕ, ◌+◌, ◌≡◌, ◌≢◌, refl, ap, Bool, false, List, [], ◌∷◌, ◌++◌, arith, ◌==◌, if◌then◌else◌, ==_iff,
  Bool-cases, inl, inr,
}
use lame.Prelude.Int.{ℤ, pos, negsuc}

-- `-1`, the value of `INVALID_SOCKET_HANDLE` and `INVALID_SERIAL_PORT_HANDLE`.
abbrev pub invalid_handle : ℤ
invalid_handle = negsuc 0

-- `acquired`: a call gave this descriptor. `closed`: it was handed to `close`. The rest use one.
pub data Call : Type 0 where
  acquired : ℤ → Call
  closed : ℤ → Call
  configured : ℤ → ℤ → Call
  written : ℤ → List ℕ → Call
  read_from : ℤ → ℕ → Call

abbrev same_handle : ℤ → ℤ → Bool
same_handle (pos m) (pos n) = m == n
same_handle (pos m) (negsuc n) = false
same_handle (negsuc m) (pos n) = false
same_handle (negsuc m) (negsuc n) = m == n

-- One if the descriptor `h` is the descriptor `g`, and zero otherwise.
pub tally : ℤ → ℤ → ℕ
tally g h = if same_handle g h then 1 else 0

pub tally-same : (g : ℤ) → tally g g ≡ 1
unfolding tally
tally-same (pos n) = ground arith
tally-same (negsuc n) = ground arith

pub tally-other : (g h : ℤ) → g ≢ h → tally g h ≡ 0
unfolding tally
tally-other (pos m) (pos n) other = elim (Bool-cases (m == n)) [
  | inl e ↦ absurd (other (ap pos ((==_iff m n).0 e)))
  | inr e ↦ rw e
]
tally-other (pos m) (negsuc n) other = refl
tally-other (negsuc m) (pos n) other = refl
tally-other (negsuc m) (negsuc n) other = elim (Bool-cases (m == n)) [
  | inl e ↦ absurd (other (ap negsuc ((==_iff m n).0 e)))
  | inr e ↦ rw e
]

-- How often the descriptor `g` is acquired, and how often it is closed.
abbrev pub acquisitions : ℤ → List Call → ℕ
acquisitions g [] = 0
acquisitions g (acquired h ∷ calls) = tally g h + acquisitions g calls
acquisitions g (closed h ∷ calls) = acquisitions g calls
acquisitions g (configured h b ∷ calls) = acquisitions g calls
acquisitions g (written h bytes ∷ calls) = acquisitions g calls
acquisitions g (read_from h n ∷ calls) = acquisitions g calls

abbrev pub closings : ℤ → List Call → ℕ
closings g [] = 0
closings g (acquired h ∷ calls) = closings g calls
closings g (closed h ∷ calls) = tally g h + closings g calls
closings g (configured h b ∷ calls) = closings g calls
closings g (written h bytes ∷ calls) = closings g calls
closings g (read_from h n ∷ calls) = closings g calls

module _ (g : ℤ) where
  pub acquisitions-append :
      (xs ys : List Call) → acquisitions g (xs ++ ys) ≡ acquisitions g xs + acquisitions g ys
  acquisitions-append [] ys = omega arith
  acquisitions-append (acquired h ∷ xs) ys = omega (arith, acquisitions-append xs ys)
  acquisitions-append (closed h ∷ xs) ys = acquisitions-append xs ys
  acquisitions-append (configured h b ∷ xs) ys = acquisitions-append xs ys
  acquisitions-append (written h bytes ∷ xs) ys = acquisitions-append xs ys
  acquisitions-append (read_from h n ∷ xs) ys = acquisitions-append xs ys

  pub closings-append : (xs ys : List Call) → closings g (xs ++ ys) ≡ closings g xs + closings g ys
  closings-append [] ys = omega arith
  closings-append (acquired h ∷ xs) ys = closings-append xs ys
  closings-append (closed h ∷ xs) ys = omega (arith, closings-append xs ys)
  closings-append (configured h b ∷ xs) ys = closings-append xs ys
  closings-append (written h bytes ∷ xs) ys = closings-append xs ys
  closings-append (read_from h n ∷ xs) ys = closings-append xs ys
