-- ===== src/Ipcs/Laws.antt =====
-- What src/ipcs.c lists.
use util_ironclad.Base.{
  ℕ, ◌≤◌, pos, true, false, List, [], ◌∷◌, ◌++◌, ◌≡◌, refl, map, ◌∙◌, ap, length, take,
}
use util_ironclad.Libc.Text.{Bytes, codes}
use util_ironclad.Libc.Getopt.{getopt}
use util_ironclad.Run.{Log, next, exit, call, stdout, stop, while_getopt, bind_next}
use util_ironclad.Run.Arrays.{print_array-take}
use util_ironclad.Run.Flags.{after_all, flags-run}
use util_ironclad.Ipcs.{
  FlockInfo, Settings, defaults, Call, listflocks, System, on_opt, on_bad, lock_row, lock_header,
  show_listed, show_locks, show, main,
}

-- The options that choose what is listed.
pub data Shown : Type 0 where
  only_segments only_locks everything : Shown

unfoldable pub flag : Shown → Bytes
flag only_segments = codes "-m"
flag only_locks = codes "-l"
flag everything = codes "-a"

unfoldable pub settings_of : Shown → Settings
settings_of only_segments = record { do_shared_segments = true; do_filelocks = false }
settings_of only_locks = record { do_shared_segments = false; do_filelocks = true }
settings_of everything = record { do_shared_segments = true; do_filelocks = true }

after-last :
    (ms : List Shown) (m : Shown) (s : Settings)
    → after_all (λ s n. settings_of n) s (ms ++ (m ∷ [])) ≡ settings_of m
after-last [] m s = refl
after-last (n ∷ ms) m s = after-last ms m (settings_of n)

option_step :
    (package_version : Bytes) (m : Shown) (args : List Bytes) (s : Settings) (log : Log Call)
    → while_getopt (on_opt package_version) on_bad (getopt (codes "hvmla") (flag m ∷ args)) s log
      ≡ while_getopt
          (on_opt package_version)
          on_bad
          (getopt (codes "hvmla") args)
          (settings_of m)
          log
unfolding while_getopt getopt codes on_opt flag settings_of
option_step package_version only_segments args s log = refl
option_step package_version only_locks args s log = refl
option_step package_version everything args s log = refl

module _ (sys : System) (package_version : Bytes) where
  -- However many of the options -m, -l and -a are given, the last one alone decides what is listed.
  pub ipcs_last :
      (ms : List Shown) (m : Shown) (log : Log Call)
      → main sys package_version (map flag (ms ++ (m ∷ []))) log ≡ show sys (settings_of m) log
  unfolding main
  ipcs_last ms m log =
      flags-run (on_opt package_version) on_bad (codes "hvmla") flag (λ s n. settings_of n)
        (option_step package_version) (λ p. show sys p.0) (ms ++ (m ∷ [])) defaults log
      ∙ ap (λ s. show sys s log) (after-last ms m defaults)

  abbrev asked : Log Call
  asked =
      call (listflocks 20)
      ∷ stdout (codes "POSIX filelocks:" ++ (10 ∷ []))
      ∷ stdout lock_header
      ∷ []

  show_locks_lem :
      (n : ℕ) (buffer : List FlockInfo)
      → sys.locks [] ≡ (pos n, buffer)
      → n ≤ length buffer
      → show_locks sys false [] ≡ (next tt, asked ++ map (λ l. stdout (lock_row l)) (take n buffer))
  unfolding show_locks show_listed
  show_locks_lem n buffer listed h = rw listed (print_array-take lock_row n buffer asked h)

  -- With -l, the file locks that the kernel reports are printed in their order, as many as it says, if it
  -- wrote that many; the status is 0.
  pub ipcs_locks :
      (n : ℕ) (buffer : List FlockInfo)
      → sys.locks [] ≡ (pos n, buffer)
      → n ≤ length buffer
      → main sys package_version (codes "-l" ∷ []) [] ≡ (
        exit (pos 0),
        call (listflocks 20)
            ∷ stdout (codes "POSIX filelocks:" ++ (10 ∷ []))
            ∷ stdout lock_header
            ∷ map (λ l. stdout (lock_row l)) (take n buffer),
      )
  unfolding show flag settings_of
  ipcs_locks n buffer listed h =
      ipcs_last [] only_locks []
      ∙ bind_next {C = Call} {A = Unit {0}} {B = Unit {0}} (show_locks sys false)
          (λ _. stop (pos 0)) {log = []}
          {log' = asked ++ map (λ l. stdout (lock_row l)) (take n buffer)} {a = tt}
          (show_locks_lem n buffer listed h)
