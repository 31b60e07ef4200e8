-- ===== src/Tests/Dmesg.antt =====
-- A log of src/dmesg.c, of 99 empty rows and one entry.
use util_ironclad.Base.{pos, List, [], ◌∷◌, ◌≡◌, refl, replicate}
use util_ironclad.Run.{exit, call}
use util_ironclad.Dmesg.{System, dumplogs, main}
use util_ironclad.Dmesg.Laws.{Row, buffer, lines, dmesg_rows}

abbrev empty_row : Row
empty_row = record { first = 0; rest = replicate 79 0; is_full = refl }

abbrev entry_row : Row
entry_row = record { first = b'('; rest = b'1' ∷ b')' ∷ replicate 77 0; is_full = refl }

abbrev rows : List Row
rows = entry_row ∷ replicate 99 empty_row

abbrev sys : System
sys = record { logs = λ log. (pos 0, buffer rows) }

log_example : main sys [] [] [] ≡ (exit (pos 0), call (dumplogs 8000) ∷ lines rows)
log_example = dmesg_rows sys [] 0 rows refl refl
