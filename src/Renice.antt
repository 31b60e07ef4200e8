-- ===== src/Renice.antt =====
-- src/renice.c: `main`.
pub mod Laws
use util_ironclad.Base.{
  ℕ, ℤ, pos, ◌+ℤ◌, Bool, true, false, Option, none, some, List, [], ◌∷◌, ◌++◌, ◌==◌, if◌then◌else◌,
  map,
}
use util_ironclad.Libc.Text.{Bytes, codes, scan_int}
use util_ironclad.Libc.Getopt.{getopt}
use util_ironclad.Run.{
  Run, Log, stderr, return, stop, put, ask, when, fail, complain, while_getopt, ◌>>=◌, ◌>>◌,
}
use util_ironclad.Commons.{help, version}

-- The lines that `-h` prints.
unfoldable pub usage : List Bytes
unfolding codes
usage = map codes (
    "Usage: renice -n <increment> [-g|-p|-u] id" ∷ "" ∷ "Options:"
    ∷ "-h             Print this help message" ∷ "-v             Display version information."
    ∷ "-n <increment> Increment to set to niceness"
    ∷ "-g <pgid>      Set niceness to the passed group"
    ∷ "-p <pid>       Set niceness to the passed pid"
    ∷ "-u <uid>       Set niceness to the passed uid" ∷ [])

-- `PRIO_PGRP`, `PRIO_USER` and `PRIO_PROCESS`
pub data Which : Type 0 where
  prio_pgrp prio_user prio_process : Which

-- The variables that the options set.
pub record Settings : Type 0 where
  pub increment : ℤ
  pub setpid : Bool
  pub pid : ℤ
  pub setpgid : Bool
  pub pgid : ℤ
  pub setuid : Bool
  pub uid : ℤ

abbrev pub defaults : Settings
defaults = record {
  increment = pos 0;
  setpid = false;
  pid = pos 0;
  setpgid = false;
  pgid = pos 0;
  setuid = false;
  uid = pos 0;
}

pub data Call : Type 0 where
  getpriority : Which → ℤ → Call
  setpriority : Which → ℤ → ℤ → Call

-- The replies: the result of `getpriority` and whether `errno` is set after it; whether `setpriority`
-- fails.
pub record System : Type 0 where
  pub priority : Which → ℤ → Log Call → ℤ
  pub errno : Log Call → Bool
  pub set_fails : Which → ℤ → ℤ → Log Call → Bool

-- `sscanf(optarg, "%d", &n)` with its message, which comes back with the value of `n`.
unfoldable pub number_option : Bytes → Bytes → ℤ → Run Call ℤ
number_option what optarg n = elim (scan_int optarg) [
  | some value ↦ return value
  | none ↦ do
    put (stderr (codes "renice: '" ++ (optarg ++ (codes "' is not a valid " ++ what))))
    return n
]

unfoldable pub on_opt : Bytes → ℕ → Bytes → Settings → Run Call Settings
on_opt package_version c optarg s =
    if c == b'h'
    then help usage
    else if c == b'v'
    then version (codes "renice") package_version
    else if c == b'n'
    then number_option (codes "increment") optarg s.increment
      >>= (λ n. return (record s { increment = n }))
    else if c == b'g'
    then number_option (codes "PGID") optarg s.pgid
      >>= (λ n. return (record s { setpgid = true; pgid = n }))
    else if c == b'p'
    then number_option (codes "PID") optarg s.pid
      >>= (λ n. return (record s { setpid = true; pid = n }))
    else number_option (codes "UID") optarg s.uid
      >>= (λ n. return (record s { setuid = true; uid = n }))

unfoldable pub on_bad : ℕ → Run Call (Unit {0})
on_bad optopt = complain (codes "renice: Unknown option '" ++ (optopt ∷ codes "'\n"))

-- `which` and `who`
unfoldable pub entity : Settings → Option (Which × ℤ)
entity s =
    if s.setpgid
    then some (prio_pgrp, s.pgid)
    else if s.setuid
    then some (prio_user, s.uid)
    else if s.setpid
    then some (prio_process, s.pid)
    else none

module _ (sys : System) where
  unfoldable pub adjust : Which → ℤ → ℤ → Run Call (Unit {0})
  adjust which who increment = do
    prio ← ask (getpriority which who) (sys.priority which who)
    (λ log. when (sys.errno log) (fail (codes "renice: could not get priority")) log)
    failed ←
        ask (setpriority which who (prio +ℤ increment))
          (sys.set_fails which who (prio +ℤ increment))
    when failed (fail (codes "renice: could not set priority"))
    stop (pos 0)

  unfoldable pub apply : Settings → Run Call (Unit {0})
  apply s = elim (entity s) [
    | none ↦ complain (codes "renice: No entity to set niceness of\n")
    | some (which, who) ↦ adjust which who s.increment
  ]

  unfoldable pub main : Bytes → List Bytes → Run Call (Unit {0})
  main package_version args = do
    (s, rest) ←
        while_getopt (on_opt package_version) on_bad (getopt (codes "hvn:g:p:u:") args) defaults
    apply s
