-- ===== src/Renice/Laws.antt =====
-- Which entity src/renice.c changes, and by how much.
use util_ironclad.Base.{ℤ, pos, ◌+ℤ◌, some, [], ◌∷◌, if◌then◌else◌, ◌≡◌, arith}
use util_ironclad.Libc.Text.{Bytes, codes, scan_int}
use util_ironclad.Libc.Getopt.{getopt}
use util_ironclad.Run.{exit, call, perror, while_getopt}
use util_ironclad.Renice.{
  Which, prio_pgrp, prio_user, prio_process, getpriority, setpriority, System, number_option,
  on_opt, entity, adjust, apply, main,
}

-- The option that names an entity of the kind.
unfoldable pub flag : Which → Bytes
flag prio_pgrp = codes "-g"
flag prio_user = codes "-u"
flag prio_process = codes "-p"

module _ (sys : System) (package_version : Bytes) where
  -- With an increment and one entity, both numbers, the run asks for the priority of that entity
  -- and sets it to the sum, and to nothing else: status 0 is returned only if both calls succeed,
  -- and nothing is set where the first one fails.
  pub renice_one :
      (which : Which) (increment id : Bytes) (n who : ℤ)
      → scan_int increment ≡ some n
      → scan_int id ≡ some who
      → main sys package_version (codes "-n" ∷ increment ∷ flag which ∷ id ∷ []) [] ≡ (
          if sys.errno (call (getpriority which who) ∷ [])
          then (
            exit (pos 1),
            call (getpriority which who) ∷ perror (codes "renice: could not get priority") ∷ [],
          )
          else if sys.set_fails which who
              (sys.priority which who [] +ℤ n)
              (call (getpriority which who) ∷ [])
          then (
            exit (pos 1),
            call (getpriority which who)
                ∷ call (setpriority which who (sys.priority which who [] +ℤ n))
                ∷ perror (codes "renice: could not set priority")
                ∷ [],
          )
          else (
            exit (pos 0),
            call (getpriority which who)
                ∷ call (setpriority which who (sys.priority which who [] +ℤ n))
                ∷ [],
          ))
  unfolding main while_getopt getopt codes on_opt number_option apply adjust entity flag
  renice_one prio_pgrp increment id n who e f = ground arith
  renice_one prio_user increment id n who e f = ground arith
  renice_one prio_process increment id n who e f = ground arith

  -- With a group and a process, all numbers, only the priority of the group is changed, in
  -- whichever order the two options come.
  pub group_first :
      (increment group process : Bytes) (n g p : ℤ)
      → scan_int increment ≡ some n
      → scan_int group ≡ some g
      → scan_int process ≡ some p
      → (main sys package_version
            (codes "-n" ∷ increment ∷ codes "-p" ∷ process ∷ codes "-g" ∷ group ∷ [])
            []
          ≡ adjust sys prio_pgrp g n [])
        × (main sys package_version
              (codes "-n" ∷ increment ∷ codes "-g" ∷ group ∷ codes "-p" ∷ process ∷ [])
              []
            ≡ adjust sys prio_pgrp g n [])
  unfolding main while_getopt getopt codes on_opt number_option apply entity
  group_first increment group process n g p e f h = (ground arith, ground arith)
