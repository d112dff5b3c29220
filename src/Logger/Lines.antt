-- ===== src/Logger/Lines.antt =====
-- A log of BaseStation/BaseStation/Logger.cs as the list of what was written.
use mathlib.Core.List.{append_assoc, append-nil}
use lame.Prelude.{
  ℕ, ◌≡◌, refl, ap, ◌∙◌, true, false, List, [], ◌∷◌, ◌++◌, map, Option, none, some, Outcome, ok,
  ◌>>=◌,
}
use lame.Logger.{
  LoggerLevel, LogItem, Writer, Logger, open_writer, construct, get_instance, converted_text,
  write_file, write, shown, level_map,
}

-- What a call of `Write` is given, with the time it sees.
pub record Entry : Type 0 where
  pub time : List ℕ
  pub level : LoggerLevel
  pub text : List ℕ

pub write_all : Logger → List Entry → Outcome (Logger × List LogItem)
write_all l [] = ok (l, [])
write_all l (e ∷ entries) = write l e.time e.time e.level e.text >>= λ first.
    write_all first.0 entries >>= λ rest. ok (rest.0, first.1 ∷ rest.1)

-- The abstract log: its lines without their ends.
abbrev pub line_of : Entry → List ℕ
line_of e = 91 ∷ e.time ++ (32 ∷ 124 ∷ 32 ∷ level_map e.level ++ (93 ∷ 32 ∷ e.text))

-- All lines, each with the end `mark`.
abbrev pub lines : ℕ → List Entry → List ℕ
lines mark [] = []
lines mark (e ∷ entries) = (line_of e ++ mark ∷ []) ++ lines mark entries

abbrev pub display : List LogItem → List ℕ
display [] = []
display (item ∷ items) = shown item ++ display items

converted_text-line_of : (e : Entry) → converted_text e.time e.level e.text ≡ line_of e ++ 10 ∷ []
unfolding converted_text
converted_text-line_of e = simp append_assoc refl

shown-line_of :
    (e : Entry)
    → shown (record { level = e.level; timestamp = e.time; text = e.text }) ≡ line_of e ++ 13 ∷ []
unfolding shown
shown-line_of e = simp append_assoc refl

-- The writer, if the log has a file, where the file is what has been logged.
abbrev pub mirrored : Option (List ℕ) → List ℕ → Option Writer
mirrored none text = none
mirrored (some file_path) text = some (record { written = text; is_open = true })

abbrev logged : Option (List ℕ) → List ℕ → Logger
logged file_path text = record {
  text = text;
  writer = mirrored file_path text;
  disposed_value = false;
}

write_file-mirrored :
    (file_path : Option (List ℕ)) (text line : List ℕ)
    → write_file (mirrored file_path text) line ≡ ok (mirrored file_path (text ++ line))
unfolding write_file
write_file-mirrored none text line = refl
write_file-mirrored (some path) text line = refl

item_of : Entry → LogItem
item_of e = record { level = e.level; timestamp = e.time; text = e.text }

write-logged :
    (file_path : Option (List ℕ)) (text : List ℕ) (e : Entry)
    → write (logged file_path text) e.time e.time e.level e.text
      ≡ ok (logged file_path (text ++ (line_of e ++ 10 ∷ [])), item_of e)
unfolding write item_of
write-logged file_path text e =
    rw (converted_text-line_of e, write_file-mirrored file_path text (line_of e ++ 10 ∷ []))

write_all-logged :
    (file_path : Option (List ℕ)) (text : List ℕ) (entries : List Entry)
    → write_all (logged file_path text) entries
      ≡ ok (logged file_path (text ++ lines 10 entries), map item_of entries)
unfolding write_all
write_all-logged file_path text [] = rw (append-nil text)
write_all-logged file_path text (e ∷ entries) =
    let text' = text ++ (line_of e ++ 10 ∷ []) in
    rw (
      write-logged file_path text e,
      write_all-logged file_path text' entries,
      append_assoc text (line_of e ++ 10 ∷ []) (lines 10 entries),
    )

display-item_of : (entries : List Entry) → display (map item_of entries) ≡ lines 13 entries
unfolding item_of
display-item_of [] = refl
display-item_of (e ∷ entries) = rw (shown-line_of e, display-item_of entries)

get_instance-logged :
    (file_path : Option (List ℕ)) → get_instance none file_path ≡ logged file_path []
unfolding get_instance construct open_writer
get_instance-logged none = refl
get_instance-logged (some path) = refl

-- A log that is made new and written any number of times, each time within one second: its text is
-- the lines of what was written, in that order, its file, if it has one, is the same text and still
-- open, and the control shows the same lines with another end.
pub write_all-lines :
    (file_path : Option (List ℕ)) (entries : List Entry)
    → (l : Logger) × (items : List LogItem) × (write_all (get_instance none file_path) entries
        ≡ ok (l, items))
      × (l.text ≡ lines 10 entries)
      × (l.writer ≡ mirrored file_path (lines 10 entries))
      × (display items ≡ lines 13 entries)
write_all-lines file_path entries = (
  logged file_path (lines 10 entries),
  map item_of entries,
  ap (λ (l : Logger). write_all l entries) (get_instance-logged file_path)
      ∙ write_all-logged file_path [] entries,
  refl,
  refl,
  display-item_of entries,
)
