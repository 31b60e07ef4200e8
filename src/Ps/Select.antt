-- ===== src/Ps/Select.antt =====
-- src/ps.c: which processes are printed, and how.
pub mod Laws
use Prim.Native.Nat.{bit_and}
use util_ironclad.Base.{
  ℕ, ℤ, pos, Bool, true, false, not, ◌&&◌, ◌||◌, List, [], ◌∷◌, ◌++◌, ◌==◌, ◌==ℤ◌, if◌then◌else◌,
}
use util_ironclad.Libc.Text.{Bytes, codes}
use util_ironclad.Libc.Format.{dec, prefix}
use util_ironclad.Run.{Run, stdout, put, return, ◌>>=◌, ◌>>◌}
use util_ironclad.Ps.Info.{ProcInfo, Call}
use util_ironclad.Ps.Format.{proc_exited, header, row, elapsed_time}

-- The variables that the options set.
pub record Settings : Type 0 where
  pub print_all_users : Bool
  pub print_threads : Bool
  pub print_clusters : Bool
  pub print_running : Bool
  pub print_only_this : ℤ
  pub print_only_this_name : Bool
  pub print_only_this_parent : Bool
  pub print_only_elapsed_time : Bool

-- The test of the loop over all processes.
unfoldable pub is_listed : Settings → ℕ → ProcInfo → Bool
is_listed s current_uid proc =
    (s.print_all_users || proc.uid == current_uid)
    && (not s.print_running || bit_and proc.flags proc_exited == 0)

unfoldable pub print_rows : Settings → ℕ → List ProcInfo → Run Call (Unit {0})
print_rows s current_uid [] = return tt
print_rows s current_uid (proc ∷ procs) = do
  (if is_listed s current_uid proc then put (stdout (row proc)) else return tt)
  print_rows s current_uid procs

-- What is printed of the process of `-p`.
unfoldable pub describe : Settings → ProcInfo → Run Call (Unit {0})
describe s proc =
    if s.print_only_this_name
    then put (stdout (prefix proc.id_len proc.id ++ codes "\n"))
    else if s.print_only_this_parent
    then put (stdout (dec proc.ppid ++ codes "\n"))
    else if s.print_only_elapsed_time
    then put (stdout (elapsed_time proc))
    else (put (stdout header) >> put (stdout (row proc)))

-- The loop for `-p`, which ends at the first hit.
unfoldable pub print_one : Settings → List ProcInfo → Run Call (Unit {0})
print_one s [] = return tt
print_one s (proc ∷ procs) = elim (pos proc.pid ==ℤ s.print_only_this) [
  | true ↦ describe s proc
  | false ↦ print_one s procs
]
