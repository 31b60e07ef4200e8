-- ===== src/Umount.antt =====
-- src/umount.c: `main`.
pub mod Laws
use Prim.Native.Nat.{bit_or}
use util_ironclad.Base.{
  ℕ, ℤ, pos, negsuc, Bool, true, false, Option, none, some, List, [], ◌∷◌, ◌++◌, ◌==◌, ◌==ℤ◌,
  if◌then◌else◌, map,
}
use util_ironclad.Libc.Text.{Bytes, codes}
use util_ironclad.Libc.Getopt.{getopt}
use util_ironclad.Run.{
  Run, Log, stderr, perror, return, stop, put, ask, when, complain, while_getopt, ◌>>=◌, ◌>>◌,
}
use util_ironclad.Commons.{help, version}

-- The lines that `-h` prints.
unfoldable pub usage : List Bytes
unfolding codes
usage = map codes (
    "Usage: umount <target>" ∷ "" ∷ "Options:" ∷ "-h              Print this help message"
    ∷ "-v              Print version information" ∷ "-f              Force unmounting, even if busy"
    ∷ "-v              Display version information." ∷ [])

pub data Call : Type 0 where
  umount : Bytes → ℕ → Call

-- The result of `umount`, and whether `strdup` finds memory.
pub record System : Type 0 where
  pub umounts : Bytes → ℕ → Log Call → ℤ
  pub has_memory : Log Call → Bool

-- The variable of the loop is `flags`.
unfoldable pub on_opt : Bytes → ℕ → Bytes → ℕ → Run Call ℕ
on_opt package_version c optarg flags =
    if c == b'h'
    then help usage
    else if c == b'f'
    then return (bit_or flags 1)
    else version (codes "umount") package_version

unfoldable pub on_bad : ℕ → Run Call (Unit {0})
on_bad optopt = return tt

module _ (sys : System) where
  unfoldable pub dup : Bytes → Run Call Bytes
  dup s log = (if sys.has_memory log then return s else stop (pos 1)) log

  -- The arguments after the options, from `target` as it stands.
  unfoldable pub operands : List Bytes → Option Bytes → Run Call (Option Bytes)
  operands [] target = return target
  operands (a ∷ args) none = do t ← dup a; operands args (some t)
  operands (a ∷ args) (some target) = do
    put (stderr (codes "umount: Argument '" ++ (a ++ codes "' not used\n")))
    operands args (some target)

  unfoldable pub unmount : ℕ → Option Bytes → Run Call (Unit {0})
  unmount flags none = complain (codes "umount: No target was specified\n")
  unmount flags (some target) = do
    ret ← ask (umount target flags) (sys.umounts target flags)
    when (ret ==ℤ negsuc 0) (put (perror (codes "umount: Could not unmount")))
    stop ret

  unfoldable pub main : Bytes → List Bytes → Run Call (Unit {0})
  main package_version args = do
    (flags, rest) ← while_getopt (on_opt package_version) on_bad (getopt (codes "hvf") args) 0
    target ← operands rest none
    unmount flags target
