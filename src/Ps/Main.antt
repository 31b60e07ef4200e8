-- ===== src/Ps/Main.antt =====
-- src/ps.c: `main`.
pub mod Laws
use util_ironclad.Base.{
  ℕ, ℤ, pos, negsuc, pos_part, Bool, true, false, Option, none, some, List, [], ◌∷◌, ◌++◌, ◌||◌,
  ◌==◌, ◌==ℤ◌, gtb_ℤ, if◌then◌else◌, read_first, map,
}
use util_ironclad.Libc.Text.{Bytes, codes, strncmp_eq, scan_int}
use util_ironclad.Libc.Format.{wide}
use util_ironclad.Libc.Getopt.{getopt}
use util_ironclad.Run.{
  Run, stdout, stderr, return, stop, undefined, put, ask, complain, while_getopt, ◌>>=◌, ◌>>◌,
}
use util_ironclad.Commons.{help, version}
use util_ironclad.Ps.Info.{
  ProcInfo, ThreadInfo, ClusterInfo, Call, list_threads, list_clusters, list_procs, thread_name,
  getuid, System,
}
use util_ironclad.Ps.Format.{header, thread_row, cluster_row}
use util_ironclad.Ps.Select.{Settings, print_rows, print_one}

-- The lines that `-h` prints.
unfoldable pub usage : List Bytes
unfolding codes
usage = map codes (
    "Usage: ps [options]" ∷ "" ∷ "Options:" ∷ "-h          Print this help message"
    ∷ "-v          Display version information."
    ∷ "-A          Print all processes regardless of user and filters"
    ∷ "-T          Print threads instead of processes"
    ∷ "-C          Print thread clusters instead of processes"
    ∷ "-r          Print running ones only" ∷ "-p <pid>    Only print information of the passed PID"
    ∷ "-o <format> Format of process information output" ∷ [])

abbrev pub defaults : Settings
defaults = record {
  print_all_users = false;
  print_threads = false;
  print_clusters = false;
  print_running = false;
  print_only_this = pos 0;
  print_only_this_name = false;
  print_only_this_parent = false;
  print_only_elapsed_time = false;
}

unfoldable pub format_option : Bytes → Settings → Settings
format_option optarg s =
    if strncmp_eq optarg (codes "comm=") 4
    then record s { print_only_this_name = true }
    else if strncmp_eq optarg (codes "ppid=") 4
    then record s { print_only_this_parent = true }
    else if strncmp_eq optarg (codes "etime=") 4
    then record s { print_only_elapsed_time = true }
    else s

unfoldable pub pid_option : Bytes → Settings → Run Call Settings
pid_option optarg s = elim (scan_int optarg) [
  | some pid ↦ return (record s { print_only_this = pid })
  | none ↦ do put (stderr (codes "ps: '" ++ (optarg ++ codes "' is not a valid PID"))); return s
]

unfoldable pub on_opt : Bytes → ℕ → Bytes → Settings → Run Call Settings
on_opt package_version c optarg s =
    if c == b'h'
    then help usage
    else if c == b'v'
    then version (codes "ps") package_version
    else if c == b'A'
    then return (record s { print_all_users = true })
    else if c == b'T'
    then return (record s { print_threads = true })
    else if c == b'C'
    then return (record s { print_clusters = true })
    else if c == b'r'
    then return (record s { print_running = true })
    else if c == b'p'
    then pid_option optarg s
    else return (format_option optarg s)

unfoldable pub on_bad : ℕ → Run Call (Unit {0})
on_bad optopt = complain (codes "ps: Unknown option '" ++ (optopt ∷ codes "'\n"))

-- `ret == -1 || ret > 50`
unfoldable pub bad_count : ℤ → Bool
bad_count ret = ret ==ℤ negsuc 0 || gtb_ℤ ret 50

-- The entries of a reply that the loops read; the run ends with 1 for a bad count.
unfoldable pub entries {ℓ} : {A : Type ℓ} → ℤ × List A → Option (Option (List A))
entries (ret, buffer) = if bad_count ret then none else some (read_first (pos_part ret) buffer)

module _ (sys : System) where
  unfoldable pub print_thread_rows : List ThreadInfo → Run Call (Unit {0})
  print_thread_rows [] = return tt
  print_thread_rows (t ∷ ts) = do
    name ← ask (thread_name t.tid) (sys.name_of t.tid)
    put (stdout (thread_row t (elim name [ none ↦ codes " " | some id_buf ↦ id_buf ])))
    print_thread_rows ts

  unfoldable pub show_threads : Run Call (Unit {0})
  show_threads = do
    reply ← ask list_threads sys.threads
    elim (entries reply) [
      | none ↦ stop (pos 1)
      | some none ↦ undefined
      | some (some ts) ↦ do
        put (
            stdout (
              wide 4 (codes "TID")
              ++ (codes " "
                  ++ (wide 4 (codes "NICE")
                      ++ (codes " "
                          ++ (wide 4 (codes "TCID")
                              ++ (codes " "
                                  ++ (wide 4 (codes "PID")
                                      ++ (codes " " ++ (wide 20 (codes "ID") ++ codes "\n"))))))))))
        print_thread_rows ts
    ]

  unfoldable pub print_cluster_rows : List ClusterInfo → Run Call (Unit {0})
  print_cluster_rows [] = return tt
  print_cluster_rows (c ∷ cs) = do put (stdout (cluster_row c)); print_cluster_rows cs

  unfoldable pub show_clusters : Run Call (Unit {0})
  show_clusters = do
    reply ← ask list_clusters sys.clusters
    elim (entries reply) [
      | none ↦ stop (pos 1)
      | some none ↦ undefined
      | some (some cs) ↦ do
        put (
            stdout (
              wide 4 (codes "TCID")
              ++ (codes " "
                  ++ (wide 7 (codes "ALGO(I)")
                      ++ (codes " " ++ (wide 4 (codes "QTUM") ++ codes "\n"))))))
        print_cluster_rows cs
    ]

  unfoldable pub show_all : Settings → List ProcInfo → Run Call (Unit {0})
  show_all s procs = do
    current_uid ← ask getuid sys.current_uid
    put (stdout header)
    print_rows s current_uid procs

  unfoldable pub show_procs : Settings → Run Call (Unit {0})
  show_procs s = do
    reply ← ask list_procs sys.procs
    elim (entries reply) [
      | none ↦ stop (pos 1)
      | some none ↦ undefined
      | some (some procs) ↦
          if s.print_only_this ==ℤ pos 0 then show_all s procs else print_one s procs
    ]

  unfoldable pub show : Settings → Run Call (Unit {0})
  show s =
      if s.print_threads
      then show_threads
      else if s.print_clusters
      then show_clusters
      else show_procs s

  unfoldable pub main : Bytes → List Bytes → Run Call (Unit {0})
  main package_version args = do
    (s, rest) ←
        while_getopt (on_opt package_version) on_bad (getopt (codes "hvATCrp:o:") args) defaults
    show s
    stop (pos 0)
