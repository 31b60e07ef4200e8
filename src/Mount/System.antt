-- ===== src/Mount/System.antt =====
-- What src/mount.c asks of the system.
use util_ironclad.Base.{ℕ, ℤ, Bool, Option, List}
use util_ironclad.Libc.Text.{Bytes}
use util_ironclad.Run.{Log}
use util_ironclad.Uuid.{Uuid}

-- `struct mountinfo`, the fields that the program reads. The two arrays are given up to their first
-- zero byte, or whole.
pub record MountInfo : Type 0 where
  pub type : ℕ
  pub flags : ℕ
  pub source : Bytes
  pub source_length : ℕ
  pub location : Bytes
  pub location_length : ℕ

pub data Call : Type 0 where
  -- `mount(source, target, type, flags)`
  mount : Bytes → Bytes → ℕ → ℕ → Call
  -- `SYSCALL_LISTMOUNTS`
  list_mounts : Call
  -- `opendir("/dev")` with the `readdir` calls after it
  read_dev : Call
  -- `open(path, O_RDWR)`, and `ioctl(fd, DEV_UUID, &uuid)` with `close(fd)`
  open_device : Bytes → Call
  device_uuid : Bytes → Call
  -- `fopen` of /etc/fstab for reading, with the `fgets` calls after it
  read_fstab : Call
  -- `fopen` of /etc/mtab for writing, and one `fprintf` to it
  open_mtab : Call
  print_mtab : Bytes → Call

-- The replies: the result of `mount`; `ret` and the buffer of the list of mounts; the names in /dev;
-- whether a device opens; its UUID, if the `ioctl` succeeds; the bytes of /etc/fstab, none of
-- them zero, if it opens; whether /etc/mtab opens; whether `strdup` finds memory.
pub record System : Type 0 where
  pub mounts : Bytes → Bytes → ℕ → ℕ → Log Call → ℤ
  pub lists : Log Call → ℤ × List MountInfo
  pub dev_names : Log Call → Option (List Bytes)
  pub opens : Bytes → Log Call → Bool
  pub uuid_of : Bytes → Log Call → Option Uuid
  pub fstab : Log Call → Option Bytes
  pub mtab_opens : Log Call → Bool
  pub has_memory : Log Call → Bool
