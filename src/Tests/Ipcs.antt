-- ===== src/Tests/Ipcs.antt =====
-- Two options of src/ipcs.c.
use util_ironclad.Base.{pos, none, [], ◌∷◌, ◌++◌, ◌≡◌, map}
use util_ironclad.Ipcs.{System, show, main}
use util_ironclad.Ipcs.Laws.{only_locks, only_segments, flag, settings_of, ipcs_last}

abbrev sys : System
sys = record { segment = λ i log. none; locks = λ log. (pos 0, []) }

last_example :
    main sys [] (map flag ((only_segments ∷ []) ++ (only_locks ∷ []))) []
    ≡ show sys (settings_of only_locks) []
last_example = ipcs_last sys [] (only_segments ∷ []) only_locks []
