-- ===== src/Mount/Kinds.antt =====
-- src/mount.c: `string_to_type` and `type_to_string`.
pub mod Laws
use util_ironclad.Base.{ℕ, ◌||◌, Option, none, some, ◌==◌, if◌then◌else◌}
use util_ironclad.Libc.Text.{Bytes, codes, strncmp_eq}

-- The constants of <sys/mount.h>.
pub record Constants : Type 0 where
  pub mnt_ext : ℕ
  pub mnt_fat : ℕ
  pub mnt_dev : ℕ
  pub ms_rdonly : ℕ
  pub ms_remount : ℕ
  pub ms_relatime : ℕ
  pub ms_noatime : ℕ

module _ (k : Constants) where
  unfoldable pub string_to_type : Bytes → ℕ
  string_to_type type =
      if strncmp_eq type (codes "ext") 3
        || strncmp_eq type (codes "ext2") 4
        || strncmp_eq type (codes "ext3") 4
        || strncmp_eq type (codes "ext4") 4
      then k.mnt_ext
      else if strncmp_eq type (codes "fat") 3
          || strncmp_eq type (codes "fat12") 5
          || strncmp_eq type (codes "fat16") 5
          || strncmp_eq type (codes "fat32") 5
      then k.mnt_fat
      else 0

  -- `none` for the null pointer.
  unfoldable pub type_to_string : ℕ → Option Bytes
  type_to_string type =
      if type == k.mnt_ext
      then some (codes "ext")
      else if type == k.mnt_fat
      then some (codes "fat")
      else if type == k.mnt_dev
      then some (codes "devfs")
      else none
