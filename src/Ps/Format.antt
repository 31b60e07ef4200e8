-- ===== src/Ps/Format.antt =====
-- src/ps.c: the text of a row, and the elapsed time.
pub mod Laws
use Prim.Native.Nat.{bit_and}
use util_ironclad.Base.{ℕ, ◌/◌, ◌%◌, ◌++◌, List, [], ◌∷◌, ◌==◌, if◌then◌else◌}
use util_ironclad.Libc.Text.{Bytes, codes}
use util_ironclad.Libc.Format.{dec, dec_ℤ, pad, wide, prefix}
use util_ironclad.Ps.Info.{ProcInfo, ThreadInfo, ClusterInfo}

-- `PROC_IS_TRACED` and `PROC_EXITED`; `SCHED_RR`, `SCHED_COOP` and `SCHED_INTR`
abbrev pub proc_is_traced : ℕ
proc_is_traced = 1

abbrev pub proc_exited : ℕ
proc_exited = 2

abbrev pub sched_rr : ℕ
sched_rr = 1

abbrev pub sched_coop : ℕ
sched_coop = 2

abbrev pub sched_intr : ℕ
sched_intr = 4

unfoldable pub header : Bytes
header =
    wide 4 (codes "PPID")
    ++ (codes " "
        ++ (wide 4 (codes "PID")
            ++ (codes " "
                ++ (wide 11 (codes "STAT")
                    ++ (codes " " ++ (wide 20 (codes "CMD") ++ codes "\n"))))))

unfoldable pub flags_message : ℕ → Bytes
flags_message flags =
    (if bit_and flags proc_is_traced == 0 then codes "xxx" else codes "tra")
    ++ (codes "-" ++ (if bit_and flags proc_exited == 0 then codes "xxx" else codes "exd"))

-- `print_process_list_process`
unfoldable pub row : ProcInfo → Bytes
row proc =
    wide 4 (dec proc.ppid)
    ++ (codes " "
        ++ (wide 4 (dec proc.pid)
            ++ (codes " "
                ++ (wide 11 (flags_message proc.flags)
                    ++ (codes " " ++ (wide 20 (prefix proc.id_len proc.id) ++ codes "\n"))))))

pub record Clock : Type 0 where
  pub hours : ℕ
  pub minutes : ℕ
  pub seconds : ℕ

-- The computation of `-o etime=`, with `seconds` reduced only where there are hours or minutes.
unfoldable pub clock : ℕ → Clock
clock elapsed =
    let hours = elapsed / 3600 in
    let after_hours = if hours == 0 then elapsed else elapsed % 3600 in
    let minutes = after_hours / 60 in
    let after_minutes = if minutes == 0 then after_hours else after_hours % 60 in
    record { hours = hours; minutes = minutes; seconds = after_minutes }

-- "%02ld"
unfoldable pub two_digits : ℕ → Bytes
two_digits n = pad b'0' 2 (dec n)

unfoldable pub elapsed_time : ProcInfo → Bytes
elapsed_time proc =
    let c = clock proc.elapsed in
    two_digits c.hours
    ++ (codes ":" ++ (two_digits c.minutes ++ (codes ":" ++ (two_digits c.seconds ++ codes "\n"))))

unfoldable pub thread_row : ThreadInfo → Bytes → Bytes
thread_row t id_buf =
    wide 4 (dec t.tid)
    ++ (codes " "
        ++ (wide 4 (dec_ℤ t.niceness)
            ++ (codes " "
                ++ (wide 4 (dec t.tcid)
                    ++ (wide 4 (dec t.pid) ++ (codes " " ++ (wide 20 id_buf ++ codes "\n")))))))

unfoldable pub cluster_row : ClusterInfo → Bytes
cluster_row c =
    wide 4 (dec c.tcid)
    ++ (codes " "
        ++ ((if bit_and c.tcflags sched_rr == 0
              then (if bit_and c.tcflags sched_coop == 0 then [] else codes "COOP")
              else codes "  RR")
            ++ ((if bit_and c.tcflags sched_intr == 0 then codes "   " else codes "(*)")
                ++ (codes " " ++ (wide 4 (dec c.tcquantum) ++ codes "\n")))))
