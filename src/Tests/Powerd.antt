-- ===== src/Tests/Powerd.antt =====
-- Two rounds of src/powerd.c.
use util_ironclad.Base.{pos, Bool, true, false, some, List, [], ◌∷◌, ◌++◌, ◌≡◌, refl, map}
use util_ironclad.Run.{next}
use util_ironclad.Powerd.{System, main}
use util_ironclad.Powerd.Laws.{opened, presses, powerd_both}

abbrev sys : System
sys = record { pwr_fd = pos 3; sle_fd = pos 4; daemon_fails = false }

abbrev rounds : List (Bool × Bool)
rounds = (false, true) ∷ (true, false) ∷ []

buttons_example : main sys [] [] (map some rounds) [] ≡ (next tt, opened ++ presses rounds)
buttons_example = powerd_both sys [] rounds refl refl refl refl
