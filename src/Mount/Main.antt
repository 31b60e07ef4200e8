-- ===== src/Mount/Main.antt =====
-- src/mount.c: `main`.
pub mod Laws
use Prim.Native.Nat.{bit_and}
use util_ironclad.Base.{
  ℕ, ℤ, pos, Bool, true, false, Option, none, some, List, [], ◌∷◌, ◌++◌, ◌==◌, ◌==ℤ◌, if◌then◌else◌,
  map,
}
use util_ironclad.Libc.Text.{Bytes, codes, strtok}
use util_ironclad.Libc.Getopt.{getopt}
use util_ironclad.Run.{
  Run, stderr, return, stop, put, ask, when, fail, complain, while_getopt, ◌>>=◌, ◌>>◌,
}
use util_ironclad.Commons.{help, version}
use util_ironclad.Mount.Kinds.{Constants, string_to_type}
use util_ironclad.Mount.Flags.{add_flags}
use util_ironclad.Mount.System.{System, Call, mount}
use util_ironclad.Mount.Fstab.{update_according_fstab}
use util_ironclad.Mount.Listing.{update_mtab, print_kernel_mounts}

-- The lines that `-h` prints.
unfoldable pub usage : List Bytes
unfolding codes
usage = map codes (
    "Usage: mount [options] <source> [<target>]" ∷ "" ∷ "Options:"
    ∷ "-h         Print this help message" ∷ "-v         Print version information"
    ∷ "-t <type>  FS to mount, or else, try them all!"
    ∷ "-a         Synchronize mounts according to fstab" ∷ "-f <flags> Flags to mount with" ∷ ""
    ∷ "Available comma-separated flags:" ∷ "remount   Instead of mounting, remount <source>"
    ∷ "ro        Mount read-only, if not present, read-write" ∷ "relatime  Use relative timestamps"
    ∷ "noatime   Do not keep track of access times" ∷ [])

-- The variables of `main` that the options set.
pub record Settings : Type 0 where
  pub type : Option Bytes
  pub mount_fstab : Bool
  pub flags : ℕ

abbrev pub defaults : Settings
defaults = record { type = none; mount_fstab = false; flags = 0 }

module _ (k : Constants) (sys : System) where
  -- `strdup`, and `return 1` without memory.
  unfoldable pub dup : Bytes → Run Call Bytes
  dup s log = (if sys.has_memory log then return s else stop (pos 1)) log

  unfoldable pub on_opt : Bytes → ℕ → Bytes → Settings → Run Call Settings
  on_opt package_version c arg s =
      if c == b'h'
      then help usage
      else if c == b'v'
      then version (codes "mount") package_version
      else if c == b't'
      then dup arg >>= (λ type. return (record s { type = some type }))
      else if c == b'a'
      then return (record s { mount_fstab = true })
      else elim (add_flags k (strtok arg (codes ",")) s.flags) [
        | none ↦ complain (codes "mount: unrecognized flag")
        | some flags ↦ return (record s { flags = flags })
      ]

  unfoldable pub on_bad : ℕ → Run Call (Unit {0})
  on_bad c = when (c == b't') (complain (codes "mount: Option -t requires an argument\n"))

  -- The arguments after the options, from `source` and `target` as they stand.
  unfoldable pub operands :
      List Bytes → Option Bytes → Option Bytes → Run Call (Option Bytes × Option Bytes)
  operands [] source target = return (source, target)
  operands (a ∷ args) none target = do s ← dup a; operands args (some s) target
  operands (a ∷ args) (some source) none = do t ← dup a; operands args (some source) (some t)
  operands (a ∷ args) (some source) (some target) = do
    put (stderr (codes "mount: Argument '" ++ (a ++ codes "' not used\n")))
    operands args (some source) (some target)

  abbrev pub mounting : Bytes → Bytes → ℕ → ℕ → Run Call ℤ
  mounting source target type flags =
      ask (mount source target type flags) (sys.mounts source target type flags)

  -- The last branch of `main`: a source and a target are given.
  unfoldable pub mount_both : Settings → Bytes → Bytes → Run Call ℤ
  mount_both s source target = elim s.type [
    | none ↦ do
      ret ← mounting source target k.mnt_ext s.flags
      if ret ==ℤ pos 0 then return ret else mounting source target k.mnt_fat s.flags
    | some type ↦ mounting source target (string_to_type k type) 0
  ]

  unfoldable pub remount : Settings → Bytes → Run Call ℤ
  remount s source =
      if bit_and s.flags k.ms_remount == 0
      then complain (codes "mount: No target was specified\n")
      else mounting [] source 0 s.flags

  -- The chain of tests that sets `ret`.
  unfoldable pub dispatch : Settings → Option Bytes → Option Bytes → Run Call ℤ
  dispatch s source target = if s.mount_fstab then update_according_fstab k sys else elim source [
    | none ↦ elim target [
      | none ↦ print_kernel_mounts k sys >>= (λ status. stop status)
      | some target ↦ complain (codes "mount: No source was specified\n")
    ]
    | some source ↦ elim target [
      | none ↦ remount s source
      | some target ↦ mount_both s source target
    ]
  ]

  unfoldable pub finish : ℤ → Run Call (Unit {0})
  finish ret = do
    when (if ret ==ℤ pos 0 then false else true) (fail (codes "mount: Could not mount"))
    update_mtab k sys
    stop (pos 0)

  unfoldable pub main : Bytes → List Bytes → Run Call (Unit {0})
  main package_version args = do
    (s, rest) ←
        while_getopt (on_opt package_version) on_bad (getopt (codes "hvt:af:") args) defaults
    (source, target) ← operands rest none none
    ret ← dispatch s source target
    finish ret
