-- ===== src/Su.antt =====
-- src/su.c: `main`.
pub mod Laws
use util_ironclad.Base.{
  ℕ, zero, suc, ◌+◌, pos, Bool, true, false, Option, none, some, List, [], ◌∷◌, ◌++◌, if◌then◌else◌,
  map, length, replicate,
}
use util_ironclad.Libc.Text.{Bytes, codes, str_eq}
use util_ironclad.Run.{
  Run, Log, call, return, stop, exec_done, undefined, put, ask, fail, complain, ◌>>=◌, ◌>>◌,
}
use util_ironclad.Commons.{help, version}

-- The lines that `-h` prints.
unfoldable pub usage : List Bytes
unfolding codes
usage = map codes (
    "Usage: su [options] [-] [username] [-c \"<command>\"]" ∷ "" ∷ "Options:"
    ∷ "-h               Print this help message" ∷ "-v               Display version information."
    ∷ "-c \"<command>\" Instead of logging, execute a command in the shell" ∷ [])

-- The variables of `main`; `command` is the arguments from `command[0]` to the null pointer.
pub record Settings : Type 0 where
  pub do_login_shell : Bool
  pub user : Option Bytes
  pub command : Option (List Bytes)

abbrev pub defaults : Settings
defaults = record { do_login_shell = false; user = none; command = none }

-- `struct passwd` of <pwd.h>, the fields that the program reads.
pub record Passwd : Type 0 where
  pub pw_uid : ℕ
  pub pw_dir : Bytes
  pub pw_shell : Bytes

pub data Call : Type 0 where
  getpwnam : Bytes → Call
  setuid seteuid : ℕ → Call
  setenv : Bytes → Bytes → Call
  execl execvp : Bytes → List Bytes → Call

-- The replies: the entry of a user; whether `malloc` of so many pointers succeeds; whether the shell
-- cannot be executed.
pub record System : Type 0 where
  pub passwd : Bytes → Log Call → Option Passwd
  pub has_memory : ℕ → Log Call → Bool
  pub exec_fails : Bytes → List Bytes → Log Call → Bool

-- The loop over `argv`, which ends at `-c` and at the first argument that is no option.
unfoldable pub read_args : Bytes → List Bytes → Settings → Run Call Settings
read_args package_version [] s = return s
read_args package_version (arg ∷ args) s = elim (str_eq arg (codes "-h")) [
  | true ↦ help usage
  | false ↦ elim (str_eq arg (codes "-v")) [
    | true ↦ version (codes "su") package_version
    | false ↦ elim (str_eq arg (codes "-")) [
      | true ↦ read_args package_version args (record s { do_login_shell = true })
      | false ↦ elim (str_eq arg (codes "-c")) [
        | true ↦ return (record s { command = some args })
        | false ↦ return (record s { user = some arg })
      ]
    ]
  ]
]

-- An element of `new_argvp`: not written, the null pointer, or a copy of a text.
pub data Slot : Type 0 where
  garbage null : Slot
  copy : Bytes → Slot

-- `new_argvp[i] = v`; `none` outside the array.
unfoldable pub store : List Slot → ℕ → Slot → Option (List Slot)
store [] i v = none
store (s ∷ slots) zero v = some (v ∷ slots)
store (s ∷ slots) (suc i) v = elim (store slots i v) [ none ↦ none | some rest ↦ some (s ∷ rest) ]

-- The loop that copies `command`, from index `i` on.
unfoldable pub copy_command : List Slot → ℕ → List Bytes → Option (List Slot)
copy_command slots i [] = some slots
copy_command slots i (word ∷ words) = elim (store slots i (copy word)) [
  | none ↦ none
  | some slots' ↦ copy_command slots' (suc i) words
]

-- The array of `arg_count + 3` pointers, filled; `none` where a write leaves it.
unfoldable pub new_argvp : Bytes → List Bytes → Option (List Slot)
new_argvp pw_shell command =
    elim (store (replicate (length command + 3) garbage) 0 (copy pw_shell)) [
      | none ↦ none
      | some slots ↦ elim (store slots 1 (copy (codes "-c"))) [
        | none ↦ none
        | some slots' ↦ elim (copy_command slots' 2 command) [
          | none ↦ none
          | some slots'' ↦ store slots'' (length command + 2) null
        ]
      ]
    ]

-- The arguments that `execvp` takes from an array: the texts up to the null pointer; `none` where it
-- reads what was not written, or past the end.
unfoldable pub read_argv : List Slot → Option (List Bytes)
read_argv [] = none
read_argv (garbage ∷ slots) = none
read_argv (null ∷ slots) = some []
read_argv (copy text ∷ slots) = elim (read_argv slots) [
  | none ↦ none
  | some texts ↦ some (text ∷ texts)
]

unfoldable pub argv_of : Bytes → List Bytes → Option (List Bytes)
argv_of pw_shell command = elim (new_argvp pw_shell command) [
  | none ↦ none
  | some slots ↦ read_argv slots
]

module _ (sys : System) where
  -- `execl` or `execvp`, and the `return 1` after it.
  unfoldable pub execute : Call → (Log Call → Bool) → Run Call (Unit {0})
  execute c fails = do failed ← ask c fails; (if failed then stop (pos 1) else exec_done)

  -- The `malloc`, and the end of the program where it fails.
  unfoldable pub allocate : ℕ → Run Call (Unit {0})
  allocate count log =
      if sys.has_memory count log
      then return tt log
      else fail (codes "su: could not allocate new argvp string") log

  unfoldable pub run_copy : Passwd → List Bytes → Run Call (Unit {0})
  run_copy pwd command = elim (argv_of pwd.pw_shell command) [
    | none ↦ undefined
    | some argv ↦ execute (execvp pwd.pw_shell argv) (sys.exec_fails pwd.pw_shell argv)
  ]

  unfoldable pub run_command : Passwd → List Bytes → Run Call (Unit {0})
  run_command pwd command = allocate (length command + 3) >> run_copy pwd command

  unfoldable pub run_shell : Passwd → List Bytes → Run Call (Unit {0})
  run_shell pwd argv = execute (execl pwd.pw_shell argv) (sys.exec_fails pwd.pw_shell argv)

  -- From the change of the user on, which looks at the result of neither call.
  unfoldable pub become : Settings → Passwd → Run Call (Unit {0})
  become s pwd = do
    put (call (setuid pwd.pw_uid))
    put (call (seteuid pwd.pw_uid))
    elim s.command [
      | some command ↦ run_command pwd command
      | none ↦
          if s.do_login_shell
          then (put (call (setenv (codes "HOME") pwd.pw_dir))
              >> run_shell pwd (pwd.pw_shell ∷ codes "--login" ∷ []))
          else run_shell pwd (pwd.pw_shell ∷ [])
    ]

  unfoldable pub switch_user : Settings → Run Call (Unit {0})
  switch_user s =
      let user : Bytes = elim s.user [ none ↦ codes "root" | some name ↦ name ] in
      ask (getpwnam user) (sys.passwd user) >>= (λ reply. elim reply [
        | none ↦ complain (
            codes "su: user '"
            ++ (user ++ codes "' does not exist or the user entry is malformed\n"))
        | some pwd ↦ become s pwd
      ])

  unfoldable pub main : Bytes → List Bytes → Run Call (Unit {0})
  main package_version args = do s ← read_args package_version args defaults; switch_user s
