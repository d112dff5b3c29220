-- ===== src/CommandLine/Reading.antt =====
-- What the loop of `main` in Robot/src/main.cpp makes of a command line.
use mathlib.Core.List.{append_assoc}
use lame.Prelude.{
  ℕ, zero, suc, ◌+◌, ◌≤◌, ◌<◌, ◌≡◌, refl, sym, ap, ◌∙◌, List, [], ◌∷◌, ◌++◌, length, length-append,
  Option, none, some, Outcome, ok, fault, arith, lt→ltb, le→not_ltb, ◌⊎◌, inl, inr,
}
use lame.Prelude.Int.{ℤ}
use lame.CommandLine.{
  Options, Flag, flag_of, argument, went, assign, take_value, take_flag, take_argument,
  parse_arguments,
}

argument-append :
    (front : List (List ℕ)) (arg : List ℕ) (rest : List (List ℕ)) (i : ℕ)
    → i ≡ length front
    → argument (front ++ arg ∷ rest) i ≡ ok arg
unfolding argument
argument-append [] arg rest zero e = refl
argument-append [] arg rest (suc i) e = absurd (omega arith)
argument-append (x ∷ front) arg rest zero e = absurd (omega arith)
argument-append (x ∷ front) arg rest (suc i) e = argument-append front arg rest i (omega arith)

argument-end : (argv : List (List ℕ)) (i : ℕ) → i ≡ length argv → argument argv i ≡ fault
unfolding argument
argument-end [] i e = refl
argument-end (x ∷ argv) zero e = absurd (omega arith)
argument-end (x ∷ argv) (suc i) e = argument-end argv i (omega arith)

module _ (atoi : List ℕ → ℤ) where
  -- Reading the arguments from the first to the last: a flag takes the next one as its value, and
  -- is a fault where there is none; anything else is passed over.
  pub read_arguments : List (List ℕ) → Options → Outcome Options
  read_arguments [] o = ok o
  read_arguments (arg ∷ []) o = elim (flag_of arg) [ none ↦ ok o | some flag ↦ fault ]
  read_arguments (arg ∷ value ∷ rest) o = elim (flag_of arg) [
    | none ↦ read_arguments (value ∷ rest) o
    | some flag ↦ read_arguments rest (assign atoi flag value o)
  ]

  parse_arguments-went :
      (fuel i i' : ℕ) (argv : List (List ℕ)) (o o' : Options)
      → i < length argv
      → take_argument atoi argv i o ≡ ok (went i' o')
      → parse_arguments atoi (suc fuel) i argv o ≡ parse_arguments atoi fuel i' argv o'
  unfolding parse_arguments
  parse_arguments-went fuel i i' argv o o' below e =
      rw (lt→ltb i (length argv) below, parse_arguments) (rw e)

  parse_arguments-fault :
      (fuel i : ℕ) (argv : List (List ℕ)) (o : Options)
      → i < length argv
      → take_argument atoi argv i o ≡ fault
      → parse_arguments atoi (suc fuel) i argv o ≡ fault
  unfolding parse_arguments
  parse_arguments-fault fuel i argv o below e =
      rw (lt→ltb i (length argv) below, parse_arguments) (rw e)

  parse_arguments-ended :
      (fuel i : ℕ) (argv : List (List ℕ)) (o : Options)
      → length argv ≤ i
      → parse_arguments atoi (suc fuel) i argv o ≡ ok o
  unfolding parse_arguments
  parse_arguments-ended fuel i argv o past = rw (le→not_ltb i (length argv) past, parse_arguments)

  -- One iteration, by what stands at the index.
  take_argument-other :
      (argv : List (List ℕ)) (i : ℕ) (o : Options) (arg : List ℕ)
      → argument argv i ≡ ok arg
      → flag_of arg ≡ none
      → take_argument atoi argv i o ≡ ok (went (i + 1) o)
  unfolding take_argument take_flag
  take_argument-other argv i o arg read other = rw (read, other)

  take_argument-flag :
      (argv : List (List ℕ)) (i : ℕ) (o : Options) (arg value : List ℕ) (flag : Flag)
      → i + 1 ≤ length argv
      → argument argv i ≡ ok arg
      → flag_of arg ≡ some flag
      → argument argv (i + 1) ≡ ok value
      → take_argument atoi argv i o ≡ ok (went (i + 2) (assign atoi flag value o))
  unfolding take_argument take_flag take_value
  take_argument-flag argv i o arg value flag within read is_flag next =
      rw (read, is_flag, le→not_ltb (length argv) (i + 1) within, next)

  take_argument-trailing :
      (argv : List (List ℕ)) (i : ℕ) (o : Options) (arg : List ℕ) (flag : Flag)
      → i + 1 ≡ length argv
      → argument argv i ≡ ok arg
      → flag_of arg ≡ some flag
      → take_argument atoi argv i o ≡ fault
  unfolding take_argument take_flag take_value
  take_argument-trailing argv i o arg flag last read is_flag = rw (
    read,
    is_flag,
    le→not_ltb (length argv) (i + 1) (omega arith),
    argument-end argv (i + 1) last,
  )

  Flag-cases : (arg : List ℕ) → (flag_of arg ≡ none) ⊎ ((flag : Flag) × (flag_of arg ≡ some flag))
  Flag-cases arg = cases (flag_of arg) refl
    where
      cases :
          (f : Option Flag)
          → flag_of arg ≡ f
          → (flag_of arg ≡ none) ⊎ ((flag : Flag) × (flag_of arg ≡ some flag))
      cases none e = inl e
      cases (some flag) e = inr (flag, e)

  loop_lem :
      (fuel : ℕ) (front rest : List (List ℕ)) (i : ℕ) (o : Options)
      → i ≡ length front
      → length rest < fuel
      → parse_arguments atoi fuel i (front ++ rest) o ≡ read_arguments rest o
  unfolding read_arguments
  loop_lem zero front rest i o at enough = absurd (omega arith)
  loop_lem (suc fuel) front [] i o at enough =
      parse_arguments-ended fuel i (front ++ []) o (omega (arith, length-append front []))
  loop_lem (suc fuel) front (arg ∷ []) i o at enough =
      let argv = front ++ arg ∷ [] in
      let read = argument-append front arg [] i at in
      let size = length-append front (arg ∷ []) in
      elim (Flag-cases arg) [
        | inl other ↦
            parse_arguments-went fuel i (i + 1) argv o o (omega arith)
              (take_argument-other argv i o arg read other)
            ∙ (rw (other, read_arguments)
                (ap (λ a. parse_arguments atoi fuel (i + 1) a o)
                    (sym (append_assoc front (arg ∷ []) []))
                  ∙ loop_lem fuel (front ++ arg ∷ []) [] (i + 1) o (omega arith) (omega arith)))
        | inr (flag, is_flag) ↦
            parse_arguments-fault fuel i argv o (omega arith)
              (take_argument-trailing argv i o arg flag (omega arith) read is_flag)
            ∙ rw (is_flag, read_arguments)
      ]
  loop_lem (suc fuel) front (arg ∷ value ∷ rest) i o at enough =
      let argv = front ++ arg ∷ value ∷ rest in
      let read = argument-append front arg (value ∷ rest) i at in
      let size = length-append front (arg ∷ value ∷ rest) in
      let one = length-append front (arg ∷ []) in
      let two = length-append front (arg ∷ value ∷ []) in
      elim (Flag-cases arg) [
        | inl other ↦
            parse_arguments-went fuel i (i + 1) argv o o (omega arith)
              (take_argument-other argv i o arg read other)
            ∙ rw (other, read_arguments)
                (ap (λ a. parse_arguments atoi fuel (i + 1) a o)
                    (sym (append_assoc front (arg ∷ []) (value ∷ rest)))
                  ∙ loop_lem fuel (front ++ arg ∷ []) (value ∷ rest) (i + 1) o (omega arith)
                      (omega arith))
        | inr (flag, is_flag) ↦
            let next : argument argv (i + 1) ≡ ok value =
              rw (← append_assoc front (arg ∷ []) (value ∷ rest))
                (argument-append (front ++ arg ∷ []) value rest (i + 1) (omega arith)) in
            parse_arguments-went fuel i (i + 2) argv o (assign atoi flag value o) (omega arith)
              (take_argument-flag argv i o arg value flag (omega arith) read is_flag next)
            ∙ rw (is_flag, read_arguments)
                (ap (λ a. parse_arguments atoi fuel (i + 2) a (assign atoi flag value o))
                    (sym (append_assoc front (arg ∷ value ∷ []) rest))
                  ∙ loop_lem fuel (front ++ arg ∷ value ∷ []) rest (i + 2)
                      (assign atoi flag value o) (omega arith) (omega arith))
      ]

  -- For any command line behind the program's name, and any fuel above its number of arguments: the
  -- loop ends, and it reads the arguments as `read_arguments` does. So the guard `i + 1 > argc` helps
  -- nothing: a flag without a value makes a string of the null pointer.
  pub parse_arguments_lem :
      (program : List ℕ) (args : List (List ℕ)) (o : Options) (fuel : ℕ)
      → length args < fuel
      → parse_arguments atoi fuel 1 (program ∷ args) o ≡ read_arguments args o
  parse_arguments_lem program args o fuel enough = loop_lem fuel (program ∷ []) args 1 o refl enough
