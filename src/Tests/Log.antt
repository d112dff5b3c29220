-- ===== src/Tests/Log.antt =====
-- The log at concrete inputs.
use lame.Prelude.{◌≡◌, List, [], ◌∷◌, none, some, ok}
use lame.Logger.{LogItem, Logger, info, error, get_instance}
use lame.Logger.Lines.{Entry, write_all, lines, mirrored, display, write_all-lines}

abbrev entries : List Entry
entries =
    record { time = 49 ∷ 50 ∷ []; level = info; text = 111 ∷ 107 ∷ [] }
    ∷ record { time = 49 ∷ 51 ∷ []; level = error; text = 110 ∷ 111 ∷ [] }
    ∷ []

write_all-lines_example :
    (l : Logger) × (items : List LogItem) × (write_all (get_instance none (some (108 ∷ []))) entries
      ≡ ok (l, items))
    × (l.text ≡ lines 10 entries)
    × (l.writer ≡ mirrored (some (108 ∷ [])) (lines 10 entries))
    × (display items ≡ lines 13 entries)
write_all-lines_example = write_all-lines (some (108 ∷ [])) entries
