-- ===== src/Watch.antt =====
-- src/watch.c: `main`.
pub mod Laws
use util_ironclad.Base.{
  ℕ, suc, ◌+◌, ◌-◌, ◌%◌, ◌^◌, ℤ, pos, Bool, true, false, ◌&&◌, Option, none, some, List, [], ◌∷◌,
  ◌++◌, ◌==◌, ◌==ℤ◌, if◌then◌else◌, map, length, replicate,
}
use util_ironclad.Libc.Text.{Bytes, codes, strcat}
use util_ironclad.Libc.Getopt.{getopt}
use util_ironclad.Run.{
  Run, stdout, call, return, stop, undefined, put, when, fail, complain, while_getopt, ◌>>=◌, ◌>>◌,
}
use util_ironclad.Commons.{help, version}

-- The lines that `-h` prints.
unfoldable pub usage : List Bytes
unfolding codes
usage = map codes (
    "Usage: watch [options] ..." ∷ "" ∷ "Options:" ∷ "-h        Print this help message"
    ∷ "-v        Print version information" ∷ "-e        Stop updates on the first error"
    ∷ "-x        Execute directly instead of passing to sh"
    ∷ "-n <secs> Time to wait between updates, 2.0 by default" ∷ [])

-- The variables that the options set. `seconds_for_update` is the argument of the last -n, or the default.
pub record Settings : Type 0 where
  pub stop_on_fail : Bool
  pub do_exec : Bool
  pub seconds_for_update : Option Bytes

abbrev pub defaults : Settings
defaults = record { stop_on_fail = false; do_exec = false; seconds_for_update = none }

pub data Call : Type 0 where
  time window_size : Call
  spawn : List Bytes → Call
  waitpid : ℤ → Call
  system : Bytes → Call
  nanosleep : ℤ → ℤ → Call

-- What the code relies on of floating-point numbers, as functions of the text that `atof` reads: whether
-- the number is zero, its print with one decimal, and the two fields of the pause. `exit_status` is
-- `WEXITSTATUS`.
pub record System : Type 0 where
  pub is_zero : Bytes → Bool
  pub one_decimal : Option Bytes → Bytes
  pub duration : Option Bytes → ℤ × ℤ
  pub exit_status : ℤ → ℕ

-- One round of the loop: what `asctime` returns, the width of the terminal, what the system call returns
-- and `errno` after it, and the status of the command.
pub record Round : Type 0 where
  pub timestr : Option Bytes
  pub ws_col : ℕ
  pub ret : ℤ
  pub errno : ℤ
  pub wstatus : ℤ

-- The loop that adds up `cmd_len`, a `size_t`.
unfoldable pub measure : List Bytes → ℕ → ℕ
measure [] cmd_len = cmd_len
measure (arg ∷ args) cmd_len = measure args ((cmd_len + (1 + length arg)) % 2 ^ 64)

-- The loop that joins the words in an array of `size` bytes; `none` where it would write past it.
unfoldable pub join : ℕ → List Bytes → Bytes → Option Bytes
join size [] text = some text
join size (arg ∷ args) text = elim (strcat size text (codes " ")) [
  | none ↦ none
  | some with_space ↦ elim (strcat size with_space arg) [
    | none ↦ none
    | some with_arg ↦ join size args with_arg
  ]
]

-- `cmd_str` of `size` bytes, which are zero first.
unfoldable pub fill : ℕ → Bytes → List Bytes → Option Bytes
fill size word words = elim (strcat size [] word) [ none ↦ none | some text ↦ join size words text ]

unfoldable pub compose : Bytes → List Bytes → Option Bytes
compose word words = fill (measure words (length word % 2 ^ 64)) word words

-- How often the loop of the padding prints a space, where `headerlen + timelen` is `used`: the difference
-- is a `size_t`. `none` where it never ends.
unfoldable pub padding : ℕ → ℕ → Option ℕ
padding ws_col used =
    let columns = (ws_col + (2 ^ 64 - used % 2 ^ 64)) % 2 ^ 64 in
    if columns == 2 ^ 64 - 1 then none else some (suc columns)

module _ (sys : System) where
  unfoldable pub on_opt : Bytes → ℕ → Bytes → Settings → Run Call Settings
  on_opt package_version c optarg s =
      if c == b'h'
      then help usage
      else if c == b'v'
      then version (codes "watch") package_version
      else if c == b'e'
      then return (record s { stop_on_fail = true })
      else if c == b'x'
      then return (record s { do_exec = true })
      else if sys.is_zero optarg
      then complain (codes "watch: invalid interval specified\n")
      else return (record s { seconds_for_update = some optarg })

  unfoldable pub on_bad : ℕ → Run Call (Unit {0})
  on_bad optopt = stop (pos 1)

  unfoldable pub title : Settings → Bytes → Bytes
  title s cmd_str =
      codes "Every "
      ++ (sys.one_decimal s.seconds_for_update ++ (codes ": \"" ++ (cmd_str ++ codes "\"")))

  -- The header, which has no result where the padding never ends or `asctime` returns a null pointer.
  unfoldable pub header : Settings → Bytes → ℕ → Option Bytes → Option Bytes
  header s cmd_str ws_col timed = elim timed [
    | none ↦ none
    | some timestr ↦ elim (padding ws_col (length (title s cmd_str) + length timestr)) [
      | none ↦ none
      | some spaces ↦ some (title s cmd_str ++ (replicate spaces 32 ++ timestr))
    ]
  ]

  unfoldable pub print_header : Settings → Bytes → Round → Run Call (Unit {0})
  print_header s cmd_str r = do
    put (call time)
    put (call time)
    put (call window_size)
    elim (header s cmd_str r.ws_col r.timestr) [
      | none ↦ undefined
      | some text ↦ put (
          stdout (
            (27 ∷ codes "[1;1H")
            ++ ((27 ∷ codes "[2J") ++ ((27 ∷ codes "[7m") ++ (text ++ (27 ∷ codes "[0m\n"))))))
    ]

  -- The command is run, by its words or by the shell.
  unfoldable pub execute : Settings → Bytes → List Bytes → Round → Run Call (Unit {0})
  execute s cmd_str argv r =
      if s.do_exec
      then (do
        put (call (spawn argv))
        when (if r.errno ==ℤ pos 0 then false else true) (fail (codes "watch: could not execute"))
        put (call (waitpid r.ret)))
      else put (call (system cmd_str))

  -- Whether the loop is left, and the pause where it is not.
  unfoldable pub pause : Settings → Round → Run Call Bool
  pause s r =
      if (if sys.exit_status r.wstatus == 0 then false else true) && s.stop_on_fail
      then return true
      else (put (
            call (
              nanosleep (sys.duration s.seconds_for_update).0
                (sys.duration s.seconds_for_update).1))
          >> return false)

  unfoldable pub round : Settings → Bytes → List Bytes → Round → Run Call Bool
  round s cmd_str argv r = do print_header s cmd_str r; execute s cmd_str argv r; pause s r

  -- The endless loop, for as many rounds as are given. The end of `main` is the status 0.
  unfoldable pub update : Settings → Bytes → List Bytes → List Round → Run Call (Unit {0})
  update s cmd_str argv [] = return tt
  update s cmd_str argv (r ∷ rounds) = do
    left ← round s cmd_str argv r
    (if left then stop (pos 0) else update s cmd_str argv rounds)

  unfoldable pub run : Settings → List Bytes → List Round → Run Call (Unit {0})
  run s [] rounds = complain (codes "watch: no command specified\n")
  run s (word ∷ words) rounds = elim (compose word words) [
    | none ↦ undefined
    | some cmd_str ↦ update s cmd_str (word ∷ words) rounds
  ]

  unfoldable pub main : Bytes → List Bytes → List Round → Run Call (Unit {0})
  main package_version args rounds = do
    (s, rest) ← while_getopt (on_opt package_version) on_bad (getopt (codes "hvexn:") args) defaults
    run s rest rounds
