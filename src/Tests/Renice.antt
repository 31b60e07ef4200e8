-- ===== src/Tests/Renice.antt =====
-- A process whose priority src/renice.c lowers.
use util_ironclad.Base.{pos, ◌+ℤ◌, false, [], ◌∷◌, some, ◌≡◌, refl, if◌then◌else◌}
use util_ironclad.Libc.Text.{Bytes, codes, scan_int}
use util_ironclad.Run.{exit, call, perror}
use util_ironclad.Renice.{System, prio_process, getpriority, setpriority, main}
use util_ironclad.Renice.Laws.{flag, renice_one}

abbrev sys : System
sys = record {
  priority = λ which who log. pos 2;
  errno = λ log. false;
  set_fails = λ which who prio log. false;
}

abbrev five : Bytes
five = b'5' ∷ []

abbrev seventy : Bytes
seventy = b'7' ∷ b'0' ∷ []

scan_five : scan_int five ≡ some (pos 5)
unfolding scan_int
scan_five = refl

scan_seventy : scan_int seventy ≡ some (pos 70)
unfolding scan_int
scan_seventy = refl

process_example : main sys [] (codes "-n" ∷ five ∷ flag prio_process ∷ seventy ∷ []) [] ≡ (
    if sys.errno (call (getpriority prio_process (pos 70)) ∷ [])
    then (
      exit (pos 1),
      call (getpriority prio_process (pos 70))
          ∷ perror (codes "renice: could not get priority")
          ∷ [],
    )
    else if sys.set_fails prio_process
        (pos 70)
        (pos 2 +ℤ pos 5)
        (call (getpriority prio_process (pos 70)) ∷ [])
    then (
      exit (pos 1),
      call (getpriority prio_process (pos 70))
          ∷ call (setpriority prio_process (pos 70) (pos 2 +ℤ pos 5))
          ∷ perror (codes "renice: could not set priority")
          ∷ [],
    )
    else (
      exit (pos 0),
      call (getpriority prio_process (pos 70))
          ∷ call (setpriority prio_process (pos 70) (pos 2 +ℤ pos 5))
          ∷ [],
    ))
process_example =
    renice_one sys [] prio_process five seventy (pos 5) (pos 70) scan_five scan_seventy
