-- ===== src/Tests/Ipcrm.antt =====
-- Arguments of src/ipcrm.c that name several segments.
use util_ironclad.Base.{pos, false, none, some, [], ◌∷◌, ◌++◌, ◌≡◌, refl}
use util_ironclad.Libc.Text.{Bytes, codes, scan_int}
use util_ironclad.Run.{Log, exit, call, stderr}
use util_ironclad.Ipcrm.{System, Call, remove_segment, main}
use util_ironclad.Ipcrm.Laws.{args_of, complaints, ipcrm_last}

abbrev sys : System
sys = record { remove_fails = λ id log. false }

abbrev three : Bytes
three = b'3' ∷ []

abbrev four : Bytes
four = b'4' ∷ []

abbrev no_number : Bytes
no_number = b'x' ∷ []

reads_four : scan_int four ≡ some (pos 4)
unfolding scan_int
reads_four = refl

reads_none : scan_int no_number ≡ none
unfolding scan_int
reads_none = refl

abbrev said : Log Call
said = complaints ((three ∷ []) ++ (four ∷ no_number ∷ []))

-- -m 3 -m 4 -m x
last_segment_example :
    (main sys [] (args_of ((three ∷ []) ++ (four ∷ no_number ∷ []))) []
      ≡ (exit (pos 0), said ++ (call (remove_segment (pos 4)) ∷ [])))
    × (main sys [] (args_of ((three ∷ []) ++ (four ∷ no_number ∷ [])) ++ (codes "-a" ∷ [])) []
        ≡ (exit (pos 1), said ++ (stderr (codes "ipcrm: Unknown option 'a'\n") ∷ [])))
last_segment_example =
    ipcrm_last sys [] (three ∷ []) four (no_number ∷ []) (pos 4) [] reads_four (reads_none, tt) refl
