-- ===== src/Newgrp.antt =====
-- src/newgrp.c: `main`.
pub mod Laws
use util_ironclad.Base.{
  ℕ, ℤ, Bool, true, false, Option, none, some, List, [], ◌∷◌, ◌++◌, ◌==◌, if◌then◌else◌, map,
}
use util_ironclad.Libc.Text.{Bytes, codes, scan_int}
use util_ironclad.Libc.Getopt.{getopt}
use util_ironclad.Run.{Run, Log, return, exec_done, ask, fail, complain, while_getopt, ◌>>=◌, ◌>>◌}
use util_ironclad.Commons.{help, version}

-- The lines that `-h` prints.
unfoldable pub usage : List Bytes
unfolding codes
usage = map codes (
    "Usage: newgrp [options] <group>" ∷ "" ∷ "Options:" ∷ "-h        Print this help message"
    ∷ "-v        Display version information." ∷ [])

pub data Call : Type 0 where
  setgid : ℤ → Call
  getuid : Call
  getpwuid : ℤ → Call
  execl : Bytes → Call

-- The replies: whether `setgid` fails; the user; the shell of the entry of a user, if there is one;
-- whether the shell cannot be executed.
pub record System : Type 0 where
  pub setgid_fails : ℤ → Log Call → Bool
  pub uid : Log Call → ℤ
  pub pw_shell : ℤ → Log Call → Option Bytes
  pub exec_fails : Bytes → Log Call → Bool

unfoldable pub on_opt : Bytes → ℕ → Bytes → Unit {0} → Run Call (Unit {0})
on_opt package_version c optarg s =
    if c == b'h' then help usage else version (codes "newgrp") package_version

unfoldable pub on_bad : ℕ → Run Call (Unit {0})
on_bad optopt = return tt

module _ (sys : System) where
  -- The shell takes the place of the program.
  unfoldable pub start_shell : Bytes → Run Call (Unit {0})
  start_shell shell = do
    failed ← ask (execl shell) (sys.exec_fails shell)
    (if failed
        then complain (codes "newgrp: could not execute " ++ (shell ++ codes "\n"))
        else exec_done)

  -- After the group is set.
  unfoldable pub find_user : Run Call (Unit {0})
  find_user = do
    uid ← ask getuid sys.uid
    reply ← ask (getpwuid uid) (sys.pw_shell uid)
    elim reply [
      | none ↦ complain (codes "newgrp: could not get current user info\n")
      | some shell ↦ start_shell shell
    ]

  -- After `setgid`.
  unfoldable pub after_setgid : Bool → Run Call (Unit {0})
  after_setgid true = fail (codes "newgrp: could not set gid")
  after_setgid false = find_user

  -- After the options.
  unfoldable pub change : List Bytes → Run Call (Unit {0})
  change [] = complain (codes "newgrp: no group was passed!\n")
  change (group ∷ rest) = elim (scan_int group) [
    | none ↦ complain (
        codes "newgrp: "
        ++ (group ++ codes " is not a valid group, groups are passed as a numeric value\n"))
    | some gid ↦ ask (setgid gid) (sys.setgid_fails gid) >>= after_setgid
  ]

  unfoldable pub main : Bytes → List Bytes → Run Call (Unit {0})
  main package_version args = do
    (s, rest) ← while_getopt (on_opt package_version) on_bad (getopt (codes "hv") args) tt
    change rest
