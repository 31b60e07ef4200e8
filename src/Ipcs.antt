-- ===== src/Ipcs.antt =====
-- src/ipcs.c: `main`.
pub mod Laws
use util_ironclad.Base.{
  ℕ, zero, suc, ℤ, pos, negsuc, Bool, true, false, Option, none, some, List, [], ◌∷◌, ◌++◌, ◌==◌,
  ◌==ℤ◌, pos_part, if◌then◌else◌, map, length,
}
use util_ironclad.Libc.Text.{Bytes, codes}
use util_ironclad.Libc.Getopt.{getopt}
use util_ironclad.Libc.Format.{dec, dec_ℤ, oct, pad, wide}
use util_ironclad.Run.{
  Run, Log, stdout, return, stop, put, puts, ask, when, complain, while_getopt, ◌>>=◌, ◌>>◌,
}
use util_ironclad.Run.Arrays.{print_array}
use util_ironclad.Commons.{help, version}

-- The lines that `-h` prints.
unfoldable pub usage : List Bytes
unfolding codes
usage = map codes (
    "Usage: ipcs [options]" ∷ "" ∷ "Options:" ∷ "-h  Print this help message"
    ∷ "-v  Display version information." ∷ "-m  Display only shared memory segments"
    ∷ "-l  Display filelocks only" ∷ "-a  Display all resources (default)" ∷ [])

-- `struct flockinfo`
pub record FlockInfo : Type 0 where
  pub pid : ℕ
  pub mode : ℕ
  pub start : ℕ
  pub length : ℕ
  pub fs : ℕ
  pub ino : ℕ

-- The fields of `struct shmid_ds` of <sys/shm.h> that are printed.
pub record Segment : Type 0 where
  pub key : ℤ
  pub uid : ℤ
  pub mode : ℕ
  pub segsz : ℕ
  pub nattch : ℤ

-- The variables that the options set.
pub record Settings : Type 0 where
  pub do_shared_segments : Bool
  pub do_filelocks : Bool

abbrev pub defaults : Settings
defaults = record { do_shared_segments = true; do_filelocks = true }

pub data Call : Type 0 where
  shmctl : ℕ → Call
  listflocks : ℕ → Call

-- The replies: the segment with the identifier, if there is one; what the system call returns, and the
-- elements of `buffer` that it writes.
pub record System : Type 0 where
  pub segment : ℕ → Log Call → Option Segment
  pub locks : Log Call → ℤ × List FlockInfo

unfoldable pub on_opt : Bytes → ℕ → Bytes → Settings → Run Call Settings
on_opt package_version c optarg s =
    if c == b'h'
    then help usage
    else if c == b'v'
    then version (codes "ipcs") package_version
    else if c == b'm'
    then return (record { do_shared_segments = true; do_filelocks = false })
    else if c == b'l'
    then return (record { do_shared_segments = false; do_filelocks = true })
    else return (record { do_shared_segments = true; do_filelocks = true })

unfoldable pub on_bad : ℕ → Run Call (Unit {0})
on_bad optopt = complain (codes "ipcs: Unknown option '" ++ (optopt ∷ codes "'\n"))

-- `%010d`: the zeros stand behind the sign.
unfoldable pub zero_padded : ℤ → Bytes
zero_padded (pos n) = pad b'0' 10 (dec n)
zero_padded (negsuc n) = b'-' ∷ pad b'0' 9 (dec (suc n))

unfoldable pub segment_row : ℕ → Segment → Bytes
segment_row i s =
    zero_padded s.key
    ++ (codes " "
        ++ (wide 5 (dec i)
            ++ (codes " "
                ++ (wide 10 (dec_ℤ s.uid)
                    ++ (codes " "
                        ++ (wide 10 (oct s.mode)
                            ++ (codes " "
                                ++ (wide 10 (dec s.segsz)
                                    ++ (codes " "
                                        ++ (wide 6 (dec_ℤ s.nattch) ++ codes "\n"))))))))))

unfoldable pub lock_row : FlockInfo → Bytes
lock_row l =
    wide 4 (dec l.pid)
    ++ (codes " "
        ++ (wide 4 (if l.mode == 1 then codes "W" else codes "R")
            ++ (codes " "
                ++ (wide 20 (dec l.start)
                    ++ (codes " "
                        ++ (wide 20 (dec l.length)
                            ++ (codes " "
                                ++ (wide 10 (dec l.fs)
                                    ++ (codes " " ++ (wide 10 (dec l.ino) ++ codes "\n"))))))))))

unfoldable pub segment_header : Bytes
segment_header =
    wide 10 (codes "key")
    ++ (codes " "
        ++ (wide 5 (codes "shmid")
            ++ (codes " "
                ++ (wide 10 (codes "owner")
                    ++ (codes " "
                        ++ (wide 10 (codes "perms")
                            ++ (codes " "
                                ++ (wide 10 (codes "bytes")
                                    ++ (codes " "
                                        ++ (wide 6 (codes "nattach") ++ codes "\n"))))))))))

unfoldable pub lock_header : Bytes
lock_header =
    wide 4 (codes "PID")
    ++ (codes " "
        ++ (wide 4 (codes "MODE")
            ++ (codes " "
                ++ (wide 20 (codes "START")
                    ++ (codes " "
                        ++ (wide 20 (codes "LENGTH")
                            ++ (codes " "
                                ++ (wide 10 (codes "FS")
                                    ++ (codes " " ++ (wide 10 (codes "INO") ++ codes "\n"))))))))))

module _ (sys : System) where
  -- The loop over the identifiers, with `left` more of them from `i` on.
  unfoldable pub print_segments : ℕ → ℕ → Run Call (Unit {0})
  print_segments zero i = return tt
  print_segments (suc left) i = do
    reply ← ask (shmctl i) (sys.segment i)
    elim reply [ none ↦ return tt | some s ↦ put (stdout (segment_row i s)) ]
    print_segments left (suc i)

  unfoldable pub show_segments : Run Call (Unit {0})
  show_segments = do
    puts (codes "Shared Memory Segments:" ∷ [])
    put (stdout segment_header)
    print_segments 20 1

  -- After the system call.
  unfoldable pub show_listed : ℤ → List FlockInfo → Run Call (Unit {0})
  show_listed ret buffer = do
    when (ret ==ℤ negsuc 0) (stop (pos 1))
    puts (codes "POSIX filelocks:" ∷ [])
    put (stdout lock_header)
    print_array lock_row (pos_part ret) buffer

  unfoldable pub show_locks : Bool → Run Call (Unit {0})
  show_locks do_shared_segments = do
    when do_shared_segments (puts ([] ∷ []))
    (ret, buffer) ← ask (listflocks 20) sys.locks
    show_listed ret buffer

  -- After the options. `main` ends without a `return`, which is the status 0.
  unfoldable pub show : Settings → Run Call (Unit {0})
  show s = do
    when s.do_shared_segments show_segments
    when s.do_filelocks (show_locks s.do_shared_segments)
    stop (pos 0)

  unfoldable pub main : Bytes → List Bytes → Run Call (Unit {0})
  main package_version args = do
    (s, rest) ← while_getopt (on_opt package_version) on_bad (getopt (codes "hvmla") args) defaults
    show s
