-- ===== src/Ps/Info.antt =====
-- src/ps.c: what the kernel reports.
use util_ironclad.Base.{ℕ, ℤ, List, Option}
use util_ironclad.Libc.Text.{Bytes}
use util_ironclad.Run.{Log}

-- `id` is the array up to its first zero byte, or whole. `elapsed` is `elapsed.tv_sec` as the
-- `uint64_t` that it is read into.
pub record ProcInfo : Type 0 where
  pub id : Bytes
  pub id_len : ℕ
  pub ppid : ℕ
  pub pid : ℕ
  pub uid : ℕ
  pub flags : ℕ
  pub elapsed : ℕ

pub record ThreadInfo : Type 0 where
  pub tid : ℕ
  pub niceness : ℤ
  pub tcid : ℕ
  pub pid : ℕ

pub record ClusterInfo : Type 0 where
  pub tcid : ℕ
  pub tcflags : ℕ
  pub tcquantum : ℕ

pub data Call : Type 0 where
  list_threads list_clusters list_procs : Call
  thread_name : ℕ → Call
  getuid : Call

-- The replies: `ret` and the buffer of each list; the name of a thread, where the call returns 0; the
-- user.
pub record System : Type 0 where
  pub threads : Log Call → ℤ × List ThreadInfo
  pub clusters : Log Call → ℤ × List ClusterInfo
  pub procs : Log Call → ℤ × List ProcInfo
  pub name_of : ℕ → Log Call → Option Bytes
  pub current_uid : Log Call → ℕ
