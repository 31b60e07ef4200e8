-- ===== src/Mount/Flags.antt =====
-- src/mount.c: the flags of `-f`, and the options of a line of the table of file systems.
pub mod Laws
pub mod Options
use Prim.Native.Nat.{bit_or}
use util_ironclad.Base.{ℕ, Option, none, some, List, [], ◌∷◌, if◌then◌else◌}
use util_ironclad.Libc.Text.{Bytes, codes, str_eq, strncmp_eq}
use util_ironclad.Mount.Kinds.{Constants}

module _ (k : Constants) where
  -- One round of the loop of `case 'f'`; `none` for a token that is not recognised.
  unfoldable pub flag_of : Bytes → Option ℕ
  flag_of tok =
      if strncmp_eq tok (codes "remount") 7
      then some k.ms_remount
      else if strncmp_eq tok (codes "ro") 2
      then some k.ms_rdonly
      else if strncmp_eq tok (codes "relatime") 8
      then some k.ms_relatime
      else if strncmp_eq tok (codes "noatime") 8
      then some k.ms_noatime
      else none

  unfoldable pub add_flags : List Bytes → ℕ → Option ℕ
  add_flags [] flags = some flags
  add_flags (tok ∷ toks) flags = elim (flag_of tok) [
    | none ↦ none
    | some flag ↦ add_flags toks (bit_or flags flag)
  ]

  -- The loop over the options of a line: an option that is not known is passed over.
  unfoldable pub fstab_flag : Bytes → ℕ → ℕ
  fstab_flag token flags =
      if str_eq token (codes "ro")
      then bit_or flags k.ms_rdonly
      else if str_eq token (codes "relatime")
      then bit_or flags k.ms_relatime
      else if str_eq token (codes "noatime")
      then bit_or flags k.ms_noatime
      else flags

  unfoldable pub fstab_flags : List Bytes → ℕ → ℕ
  fstab_flags [] flags = flags
  fstab_flags (token ∷ tokens) flags = fstab_flags tokens (fstab_flag token flags)
