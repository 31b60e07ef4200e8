-- ===== src/PivotRoot.antt =====
-- src/pivot_root.c: `main`.
use util_ironclad.Base.{ℤ, pos, List, [], ◌∷◌, ◌==ℤ◌, if◌then◌else◌, map}
use util_ironclad.Libc.Text.{Bytes, codes, str_eq}
use util_ironclad.Run.{Run, Log, stop, ask, fail, complain, ◌>>=◌}
use util_ironclad.Commons.{help, version}

-- The lines that `-h` prints.
unfoldable pub usage : List Bytes
unfolding codes
usage = map codes (
    "Usage: pivot_root [new_root | -h | -v] [old root]" ∷ "" ∷ "Options:"
    ∷ "-h       Print this help message" ∷ "-v       Display version information" ∷ [])

pub data Call : Type 0 where
  pivot_root : Bytes → Bytes → Call

-- What the system call returns.
pub record System : Type 0 where
  pub ret : Bytes → Bytes → Log Call → ℤ

unfoldable pub bad_args : Run Call (Unit {0})
bad_args = complain (codes "pivot_root: exactly 2 arguments are needed\n")

module _ (sys : System) where
  unfoldable pub pivot : Bytes → Bytes → Run Call (Unit {0})
  pivot new_root old_root = do
    ret ← ask (pivot_root new_root old_root) (sys.ret new_root old_root)
    (if ret ==ℤ pos 0 then stop (pos 0) else fail (codes "pivot_root"))

  -- The arguments after `argv[0]`.
  unfoldable pub main : Bytes → List Bytes → Run Call (Unit {0})
  main package_version (arg ∷ []) =
      if str_eq arg (codes "-h")
      then help usage
      else if str_eq arg (codes "-v")
      then version (codes "ipcrm") package_version
      else bad_args
  main package_version (new_root ∷ old_root ∷ []) = pivot new_root old_root
  main package_version [] = bad_args
  main package_version (a ∷ b ∷ c ∷ args) = bad_args
