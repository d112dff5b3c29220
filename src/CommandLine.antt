-- ===== src/CommandLine.antt =====
-- Robot/src/main.cpp: the loop of `main` over its arguments. A string is the list of its characters.
pub mod Reading
use lame.Prelude.{
  ℕ, zero, suc, ◌+◌, Bool, true, false, ◌&&◌, List, [], ◌∷◌, length, Option, none, some, Outcome,
  ok, fault, no_fuel, ◌>>=◌, ltb, ◌==◌, if◌then◌else◌,
}
use lame.Prelude.Int.{ℤ, pos}

pub record Options : Type 0 where
  pub serial_port : List ℕ
  pub port : ℤ
  pub ai_remote_port : ℤ

-- The values before the loop.
abbrev pub default_options : Options
default_options = record { serial_port = []; port = pos 10000; ai_remote_port = pos 11000 }

-- `strcmp(a, b) == 0`
unfoldable pub same_string : List ℕ → List ℕ → Bool
same_string [] [] = true
same_string [] (y ∷ b) = false
same_string (x ∷ a) [] = false
same_string (x ∷ a) (y ∷ b) = x == y && same_string a b

-- `-p`, `-s` and `-ai`.
pub data Flag : Type 0 where
  port_flag serial_flag ai_flag : Flag

unfoldable pub flag_of : List ℕ → Option Flag
flag_of arg =
    if same_string (45 ∷ 112 ∷ []) arg
    then some port_flag
    else if same_string (45 ∷ 115 ∷ []) arg
    then some serial_flag
    else if same_string (45 ∷ 97 ∷ 105 ∷ []) arg
    then some ai_flag
    else none

-- The string `argv[i]`. `argv[argc]` is a null pointer, of which no string can be read.
unfoldable pub argument : List (List ℕ) → ℕ → Outcome (List ℕ)
argument [] i = fault
argument (arg ∷ argv) zero = ok arg
argument (arg ∷ argv) (suc i) = argument argv i

-- How an iteration ends: by `break`, or with the index of the next one.
pub data Turn : Type 0 where
  broke : Options → Turn
  went : ℕ → Options → Turn

module _ (atoi : List ℕ → ℤ) where
  unfoldable pub assign : Flag → List ℕ → Options → Options
  assign port_flag value o = record o { port = atoi value }
  assign serial_flag value o = record o { serial_port = value }
  assign ai_flag value o = record o { ai_remote_port = atoi value }

  -- The branch of a flag at index `i`.
  unfoldable pub take_value : List (List ℕ) → ℕ → Flag → Options → Outcome Turn
  take_value argv i flag o =
      if ltb (length argv) (i + 1)
      then ok (broke o)
      else (argument argv (i + 1) >>= λ value. ok (went (i + 2) (assign flag value o)))

  unfoldable pub take_flag : List (List ℕ) → ℕ → Option Flag → Options → Outcome Turn
  take_flag argv i none o = ok (went (i + 1) o)
  take_flag argv i (some flag) o = take_value argv i flag o

  -- The body of the loop at index `i`.
  unfoldable pub take_argument : List (List ℕ) → ℕ → Options → Outcome Turn
  take_argument argv i o = argument argv i >>= λ arg. take_flag argv i (flag_of arg) o

  -- `for (int i = 1; i < argc; i++)`, from index `i`.
  unfoldable pub parse_arguments : ℕ → ℕ → List (List ℕ) → Options → Outcome Options
  parse_arguments zero i argv o = no_fuel
  parse_arguments (suc fuel) i argv o = elim (ltb i (length argv)) [
    | false ↦ ok o
    | true ↦
        take_argument argv i o
        >>= elim [ broke o' ↦ ok o' | went i' o' ↦ parse_arguments fuel i' argv o' ]
  ]

  -- What `main` constructs the robot with; `none` is its return of 1 without a serial port.
  unfoldable pub robot_options : List (List ℕ) → Outcome (Option Options)
  robot_options argv = parse_arguments (length argv + 1) 1 argv default_options >>= λ o.
      ok (if same_string o.serial_port [] then none else some o)
