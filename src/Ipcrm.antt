-- ===== src/Ipcrm.antt =====
-- src/ipcrm.c: `main`.
pub mod Laws
use util_ironclad.Base.{
  ℕ, zero, suc, ℤ, pos, Bool, true, false, none, some, List, [], ◌∷◌, ◌++◌, ◌==◌, ◌==ℤ◌,
  if◌then◌else◌, map,
}
use util_ironclad.Libc.Text.{Bytes, codes, scan_int}
use util_ironclad.Libc.Format.{dec_ℤ}
use util_ironclad.Libc.Getopt.{getopt}
use util_ironclad.Run.{
  Run, Log, stderr, return, stop, put, ask, when, complain, while_getopt, ◌>>=◌, ◌>>◌,
}
use util_ironclad.Commons.{help, version}

-- The lines that `-h` prints.
unfoldable pub usage : List Bytes
unfolding codes
usage = map codes (
    "Usage: ipcrm [options]" ∷ "" ∷ "Options:" ∷ "-h       Print this help message"
    ∷ "-v       Display version information"
    ∷ "-m <id>  Mark for deletion shared memory segment by id"
    ∷ "-a       Mark all IPC everywhere for deletion" ∷ [])

-- The variables that the options set.
pub record Settings : Type 0 where
  pub do_all : Bool
  pub remove_smhid : ℤ

abbrev pub defaults : Settings
defaults = record { do_all = false; remove_smhid = pos 0 }

-- `shmctl(shmid, IPC_RMID, NULL)`
pub data Call : Type 0 where
  remove_segment : ℤ → Call

-- Whether that call returns something other than 0.
pub record System : Type 0 where
  pub remove_fails : ℤ → Log Call → Bool

unfoldable pub segment_option : Bytes → Settings → Run Call Settings
segment_option optarg s = elim (scan_int optarg) [
  | some id ↦ return (record s { remove_smhid = id })
  | none ↦ do
    put (stderr (codes "ipcrm: '" ++ (optarg ++ codes "' is not a valid shmid")))
    return s
]

unfoldable pub on_opt : Bytes → ℕ → Bytes → Settings → Run Call Settings
on_opt package_version c optarg s =
    if c == b'h'
    then help usage
    else if c == b'v'
    then version (codes "ipcrm") package_version
    else if c == b'm'
    then segment_option optarg s
    else return (record s { do_all = true })

unfoldable pub on_bad : ℕ → Run Call (Unit {0})
on_bad optopt = complain (codes "ipcrm: Unknown option '" ++ (optopt ∷ codes "'\n"))

module _ (sys : System) where
  -- The loop of `do_all`, which marks the same segment each time and looks at no result.
  unfoldable pub remove_often : ℕ → ℤ → Run Call (Unit {0})
  remove_often zero id = return tt
  remove_often (suc n) id = do
    failed ← ask (remove_segment id) (sys.remove_fails id)
    remove_often n id

  unfoldable pub remove_one : ℤ → Run Call (Unit {0})
  remove_one id = do
    failed ← ask (remove_segment id) (sys.remove_fails id)
    when failed
        (complain (codes "ipcrm: Could not mark smhid " ++ (dec_ℤ id ++ codes " for deletion\n")))
    stop (pos 0)

  -- After the options.
  unfoldable pub remove_asked : Settings → Run Call (Unit {0})
  remove_asked s =
      if s.do_all
      then (remove_often 20 s.remove_smhid >> stop (pos 0))
      else if s.remove_smhid ==ℤ pos 0
      then stop (pos 0)
      else remove_one s.remove_smhid

  unfoldable pub main : Bytes → List Bytes → Run Call (Unit {0})
  main package_version args = do
    (s, rest) ← while_getopt (on_opt package_version) on_bad (getopt (codes "hvm:") args) defaults
    remove_asked s
