-- ===== src/Logger.antt =====
-- BaseStation/BaseStation/Logger.cs, and the line that `LoggerUpdated` of
-- BaseStation/BaseStation/LoggerControl.xaml.cs shows. A text is the codes of its characters;
-- `DateTime.Now.ToString("HH:mm:ss")` is an argument at each place where it is called.
pub mod Lines
use lame.Prelude.{
  ℕ, Bool, true, false, List, [], ◌∷◌, ◌++◌, Option, none, some, Outcome, ok, fault, ◌>>=◌,
  if◌then◌else◌,
}

pub data LoggerLevel : Type 0 where
  info warning error : LoggerLevel

pub record LogItem : Type 0 where
  pub level : LoggerLevel
  pub timestamp : List ℕ
  pub text : List ℕ

-- The file behind a `StreamWriter`, which is flushed after every write, and whether it is open.
pub record Writer : Type 0 where
  pub written : List ℕ
  pub is_open : Bool

pub record Logger : Type 0 where
  pub text : List ℕ
  pub writer : Option Writer
  pub disposed_value : Bool

-- INFO, WARN and ERROR.
pub level_map : LoggerLevel → List ℕ
level_map info = 73 ∷ 78 ∷ 70 ∷ 79 ∷ []
level_map warning = 87 ∷ 65 ∷ 82 ∷ 78 ∷ []
level_map error = 69 ∷ 82 ∷ 82 ∷ 79 ∷ 82 ∷ []

-- `new StreamWriter(filePath)` makes the file empty.
pub open_writer : Option (List ℕ) → Option Writer
open_writer none = none
open_writer (some file_path) = some (record { written = []; is_open = true })

pub construct : Option (List ℕ) → Logger
unfolding open_writer
construct file_path = record { text = []; writer = open_writer file_path; disposed_value = false }

-- An instance that there is keeps its file.
pub get_instance : Option Logger → Option (List ℕ) → Logger
unfolding construct
get_instance none file_path = construct file_path
get_instance (some instance_) file_path = instance_

-- `[{0} | {1}] {2}\n`
pub converted_text : List ℕ → LoggerLevel → List ℕ → List ℕ
converted_text time level log_text =
    91 ∷ time ++ (32 ∷ 124 ∷ 32 ∷ level_map level ++ (93 ∷ 32 ∷ log_text ++ 10 ∷ []))

-- `writer.Write` on a closed writer throws.
pub write_file : Option Writer → List ℕ → Outcome (Option Writer)
write_file none line = ok none
write_file (some writer) line =
    if writer.is_open then ok (some (record writer { written = writer.written ++ line })) else fault

-- The logger afterwards, and what `LogUpdated` is invoked with.
pub write : Logger → List ℕ → List ℕ → LoggerLevel → List ℕ → Outcome (Logger × LogItem)
write l current_time line_time level log_text =
    let line = converted_text line_time level log_text in
    write_file l.writer line >>= λ writer. ok (
      record l { text = l.text ++ line; writer = writer },
      record { level = level; timestamp = current_time; text = log_text },
    )

pub close_writer : Option Writer → Option Writer
close_writer none = none
close_writer (some writer) = some (record writer { is_open = false })

pub dispose : Logger → Logger
dispose l =
    if l.disposed_value
    then l
    else record l { writer = close_writer l.writer; disposed_value = true }

-- The three runs that `LoggerUpdated` appends.
pub shown : LogItem → List ℕ
shown item =
    (91 ∷ item.timestamp ++ 32 ∷ 124 ∷ 32 ∷ [])
    ++ (level_map item.level ++ (93 ∷ 32 ∷ item.text ++ 13 ∷ []))
