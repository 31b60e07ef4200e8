-- ===== src/Dmesg.antt =====
-- src/dmesg.c: `main`.
pub mod Laws
use util_ironclad.Base.{
  ℕ, zero, suc, ◌+◌, ◌*◌, ℤ, pos, negsuc, none, some, List, [], ◌∷◌, ◌++◌, ◌==◌, ◌==ℤ◌,
  if◌then◌else◌, map, get_elem?, take, drop,
}
use util_ironclad.Libc.Text.{Bytes, codes, text_of}
use util_ironclad.Libc.Getopt.{getopt}
use util_ironclad.Run.{
  Run, Log, stdout, return, stop, undefined, put, ask, when, complain, while_getopt, ◌>>=◌, ◌>>◌,
}
use util_ironclad.Commons.{help, version}

-- The lines that `-h` prints.
unfoldable pub usage : List Bytes
unfolding codes
usage = map codes (
    "Usage: dmesg [options]" ∷ "" ∷ "Options:" ∷ "-h              Print this help message"
    ∷ "-v              Display version information." ∷ [])

pub data Call : Type 0 where
  dumplogs : ℕ → Call

-- The replies: what the system call returns, and the bytes of `logs` after it.
pub record System : Type 0 where
  pub logs : Log Call → ℤ × Bytes

unfoldable pub on_opt : Bytes → ℕ → Bytes → Unit {0} → Run Call (Unit {0})
on_opt package_version c optarg s =
    if c == b'h' then help usage else version (codes "dmesg") package_version

unfoldable pub on_bad : ℕ → Run Call (Unit {0})
on_bad optopt = complain (codes "dmesg: Unknown option '" ++ (optopt ∷ codes "'\n"))

-- `printf("%.80s\n", logs + i)`
unfoldable pub entry : Bytes → Bytes
entry logs = text_of (take 80 logs) ++ (10 ∷ [])

unfoldable pub print_entry : ℕ → Bytes → Run Call (Unit {0})
print_entry c logs = when (c == b'(') (put (stdout (entry logs)))

-- The loop from the index `i` on, with `left` more indices below `length`.
unfoldable pub print_entries : ℕ → ℕ → Bytes → Run Call (Unit {0})
print_entries zero i logs = return tt
print_entries (suc left) i logs = elim (get_elem? logs i) [
  | none ↦ undefined
  | some c ↦ do print_entry c (drop i logs); print_entries left (i + 80) logs
]

module _ (sys : System) where
  -- After the options: 100 indices are below 100 * 80.
  unfoldable pub show : Run Call (Unit {0})
  show = do
    (ret, logs) ← ask (dumplogs (100 * 80)) sys.logs
    when (ret ==ℤ negsuc 0) (stop (pos 1))
    print_entries 100 0 logs
    stop (pos 0)

  unfoldable pub main : Bytes → List Bytes → Run Call (Unit {0})
  main package_version args = do
    while_getopt (on_opt package_version) on_bad (getopt (codes "hv") args) tt
    show
