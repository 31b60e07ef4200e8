-- ===== src/Tests/Newgrp.antt =====
-- A change of the group by src/newgrp.c.
use util_ironclad.Base.{ℤ, pos, false, some, List, [], ◌∷◌, ◌≡◌, refl}
use util_ironclad.Libc.Text.{Bytes, codes, scan_int}
use util_ironclad.Libc.Getopt.{getopt}
use util_ironclad.Libc.Getopt.Laws.{operands_of}
use util_ironclad.Run.{replaced, call, while_getopt}
use util_ironclad.Newgrp.{
  setgid, getuid, System, start_shell, find_user, after_setgid, change, main,
}
use util_ironclad.Newgrp.Laws.{started, newgrp_group}

abbrev shell : Bytes
shell = b's' ∷ b'h' ∷ []

abbrev seven : Bytes
seven = b'7' ∷ []

abbrev sys : System
sys = record {
  setgid_fails = λ gid log. false;
  uid = λ log. pos 1000;
  pw_shell = λ uid log. some shell;
  exec_fails = λ path log. false;
}

run_seven : main sys [] (seven ∷ []) [] ≡ (replaced, started (pos 7) (pos 1000) shell)
unfolding main while_getopt getopt codes change scan_int after_setgid find_user start_shell
run_seven = refl

group_example :
    (group : Bytes) × (rest : List Bytes) × (gid : ℤ) × (sh : Bytes) × (operands_of
        (getopt (codes "hv") (seven ∷ []))
      ≡ group ∷ rest)
    × (scan_int group ≡ some gid)
    × (sys.setgid_fails gid [] ≡ false)
    × (sys.pw_shell (sys.uid (call (setgid gid) ∷ [])) (call (setgid gid) ∷ call getuid ∷ [])
        ≡ some sh)
    × (started (pos 7) (pos 1000) shell ≡ started gid (sys.uid (call (setgid gid) ∷ [])) sh)
group_example = newgrp_group sys [] (seven ∷ []) (started (pos 7) (pos 1000) shell) run_seven
