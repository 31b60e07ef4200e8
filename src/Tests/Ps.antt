-- ===== src/Tests/Ps.antt =====
-- A list of processes that src/ps.c prints.
use util_ironclad.Base.{
  ℕ, ◌+◌, ◌*◌, ◌<◌, pos, true, false, not, ◌&&◌, ◌||◌, List, [], ◌∷◌, ◌++◌, ◌==◌, ◌≡◌, ◌≢◌, refl,
  arith,
}
use Prim.Native.Nat.{bit_and}
use util_ironclad.Run.{next}
use util_ironclad.Ps.Info.{ProcInfo}
use util_ironclad.Ps.Format.{clock, proc_exited}
use util_ironclad.Ps.Format.Laws.{clock_exact}
use util_ironclad.Ps.Select.{Settings, print_rows, print_one, describe}
use util_ironclad.Ps.Select.Laws.{keep, rows, print_rows_lem, print_one_lem}

abbrev proc : ℕ → ℕ → ProcInfo
proc pid uid = record {
  id = b'i' ∷ b'd' ∷ [];
  id_len = 2;
  ppid = 1;
  pid = pid;
  uid = uid;
  flags = 0;
  elapsed = 3725;
}

-- `-r -p 4`
abbrev settings : Settings
settings = record {
  print_all_users = false;
  print_threads = false;
  print_clusters = false;
  print_running = true;
  print_only_this = pos 4;
  print_only_this_name = false;
  print_only_this_parent = false;
  print_only_elapsed_time = false;
}

abbrev procs : List ProcInfo
procs = proc 3 0 ∷ proc 4 1000 ∷ []

print_rows_example : print_rows settings 1000 procs [] ≡ (
  next tt,
  []
      ++ rows (
          keep
            (λ p.
              (settings.print_all_users || p.uid == 1000)
              && (not settings.print_running || bit_and p.flags proc_exited == 0))
            procs),
)
print_rows_example = print_rows_lem settings 1000 procs []

three_is_other : pos 3 ≢ pos 4
three_is_other e = ground arith

print_one_example :
    print_one settings ((proc 3 0 ∷ []) ++ (proc 4 1000 ∷ proc 5 0 ∷ [])) []
    ≡ describe settings (proc 4 1000) []
print_one_example =
    print_one_lem settings (proc 3 0 ∷ []) (proc 5 0 ∷ []) (proc 4 1000) [] (three_is_other, tt)
      refl

clock_example :
    ((clock 3725).hours * 3600 + (clock 3725).minutes * 60 + (clock 3725).seconds ≡ 3725)
    × ((clock 3725).minutes < 60)
    × ((clock 3725).seconds < 60)
clock_example = clock_exact 3725
