-- ===== src/Dumper.antt =====
-- src/dumper.c: `main`.
pub mod Laws
use util_ironclad.Base.{
  ℕ, ◌*◌, ℤ, pos, negsuc, Bool, true, false, Option, none, some, List, [], ◌∷◌, ◌++◌, ◌==◌, ◌==ℤ◌,
  if◌then◌else◌, map,
}
use util_ironclad.Libc.Text.{Bytes, codes}
use util_ironclad.Libc.Getopt.{getopt}
use util_ironclad.Libc.Format.{hex, hex_wide}
use util_ironclad.Run.{
  Run, Log, next, stdout, stderr, return, stop, put, ask, when, fail, complain, while_getopt, ◌>>=◌,
  ◌>>◌,
}
use util_ironclad.Commons.{help, version}

-- The lines that `-h` prints.
unfoldable pub usage : List Bytes
unfolding codes
usage = map codes (
    "Usage: dumper [options] <filename>" ∷ "" ∷ "Options:" ∷ "-h Print this help message"
    ∷ "-v Display version information." ∷ [])

-- `struct registers`
pub record Registers : Type 0 where
  pub rax : ℕ
  pub rbx : ℕ
  pub rcx : ℕ
  pub rdx : ℕ
  pub rsi : ℕ
  pub rdi : ℕ
  pub rbp : ℕ
  pub r8 : ℕ
  pub r9 : ℕ
  pub r10 : ℕ
  pub r11 : ℕ
  pub r12 : ℕ
  pub r13 : ℕ
  pub r14 : ℕ
  pub r15 : ℕ
  pub err : ℕ
  pub rip : ℕ
  pub cs : ℕ
  pub rflags : ℕ
  pub rsp : ℕ
  pub ss : ℕ

pub data Call : Type 0 where
  open_core : Bytes → Call
  read_core : ℤ → ℕ → Call

-- The replies: whether memory is found; the descriptor of the file; how much is read of it, and the
-- registers that are then in memory.
pub record System : Type 0 where
  pub has_memory : Log Call → Bool
  pub core_fd : Bytes → Log Call → ℤ
  pub contents : ℤ → Log Call → ℤ × Registers

unfoldable pub on_opt : Bytes → ℕ → Bytes → Unit {0} → Run Call (Unit {0})
on_opt package_version c optarg s =
    if c == b'h' then help usage else version (codes "dumper") package_version

unfoldable pub on_bad : ℕ → Run Call (Unit {0})
on_bad optopt = return tt

-- The arguments after the options, from `corefile` as it stands.
unfoldable pub operands : List Bytes → Option Bytes → Run Call (Option Bytes)
operands [] corefile = return corefile
operands (a ∷ args) none = operands args (some a)
operands (a ∷ args) (some corefile) = do
  put (stderr (codes "dumper: Argument '" ++ (a ++ codes "' not used\n")))
  operands args (some corefile)

-- Three registers with their names, each of 16 digits.
unfoldable pub row : Bytes → ℕ → Bytes → ℕ → Bytes → ℕ → Bytes
row a x b y c z =
    a ++ (hex_wide 16 x ++ (b ++ (hex_wide 16 y ++ (c ++ (hex_wide 16 z ++ codes "\n")))))

-- The lines that are printed of the registers.
unfoldable pub dump : Registers → List Bytes
dump r =
    (codes "Register dump at the time of fault (" ++ (hex r.rip ++ codes "):\n"))
    ∷ row (codes "RAX: ") r.rax (codes " RBX: ") r.rbx (codes " RCX: ") r.rcx
    ∷ row (codes "RDX: ") r.rdx (codes " RSI: ") r.rsi (codes " RDI: ") r.rdi
    ∷ row (codes "RBP: ") r.rbp (codes " R8:  ") r.r8 (codes " R9:  ") r.r9
    ∷ row (codes "R10: ") r.r10 (codes " R11: ") r.r11 (codes " R12: ") r.r12
    ∷ row (codes "R13: ") r.r13 (codes " R14: ") r.r14 (codes " R15: ") r.r15
    ∷ codes "\n"
    ∷ (codes "ERR: "
        ++ (hex r.err
            ++ (codes " CS: "
                ++ (hex r.cs ++ (codes " RFLAGS: " ++ (hex r.rflags ++ codes "\n"))))))
    ∷ (codes "RSP: " ++ (hex r.rsp ++ (codes " SS: " ++ (hex r.ss ++ codes "\n"))))
    ∷ []

-- `sizeof(struct registers)`
abbrev pub registers_size : ℕ
registers_size = 21 * 8

unfoldable pub print_dump : Registers → Run Call (Unit {0})
print_dump r log = (next tt, log ++ map (λ l. stdout l) (dump r))

-- After `read`.
unfoldable pub show_read : ℤ × Registers → Run Call (Unit {0})
show_read (count, r) = do
  when (if count ==ℤ pos registers_size then false else true)
      (fail (codes "dumper: could not read enough of the dump"))
  print_dump r
  stop (pos 0)

module _ (sys : System) where
  unfoldable pub allocate : Run Call (Unit {0})
  allocate log =
      if sys.has_memory log then return tt log else fail (codes "dumper: could not allocate") log

  -- After `open`.
  unfoldable pub read_dump : ℤ → Run Call (Unit {0})
  read_dump core_fd = do
    when (core_fd ==ℤ negsuc 0) (fail (codes "dumper: could not open passed file"))
    reply ← ask (read_core core_fd registers_size) (sys.contents core_fd)
    show_read reply

  unfoldable pub show : Option Bytes → Run Call (Unit {0})
  show none = complain (codes "dumper: No file for dumping was passed\n")
  show (some corefile) = do
    allocate
    core_fd ← ask (open_core corefile) (sys.core_fd corefile)
    read_dump core_fd

  unfoldable pub main : Bytes → List Bytes → Run Call (Unit {0})
  main package_version args = do
    (s, rest) ← while_getopt (on_opt package_version) on_bad (getopt (codes "hv") args) tt
    corefile ← operands rest none
    show corefile
