-- ===== src/Strace/Table.antt =====
-- src/strace.c: `struct syscall_info` and the table `syscalls`.
use Prim.Native.String.{String}
use util_ironclad.Base.{ℕ, List, [], ◌∷◌, Option, none, some}
use util_ironclad.Libc.Text.{Bytes, codes}

-- `none` for a null `name`
pub record SyscallInfo : Type 0 where
  pub name : Option Bytes
  pub arg_count : ℕ

unfoldable pub entry : String → ℕ → SyscallInfo
entry name arg_count = record { name = some (codes name); arg_count = arg_count }

-- An index that the initialiser of the array does not name is filled with zeros.
unfoldable pub hole : SyscallInfo
hole = record { name = none; arg_count = 0 }

abbrev pub max_syscall_idx : ℕ
max_syscall_idx = 101

unfoldable pub syscalls : List SyscallInfo
unfolding entry hole
syscalls =
    entry "exit" 1
    ∷ entry "arch_prctl" 2
    ∷ entry "open" 4
    ∷ entry "close" 1
    ∷ entry "read" 3
    ∷ entry "write" 3
    ∷ entry "seek" 3
    ∷ entry "mmap" 6
    ∷ entry "munmap" 2
    ∷ entry "get_pid" 0
    ∷ entry "get_ppid" 0
    ∷ entry "exec" 6
    ∷ entry "clone" 6
    ∷ entry "wait" 3
    ∷ entry "socket" 2
    ∷ entry "set_hostname" 2
    ∷ entry "unlink" 3
    ∷ entry "fstat" 5
    ∷ entry "chdir" 1
    ∷ entry "ioctl" 3
    ∷ entry "sched_yield" 0
    ∷ hole
    ∷ entry "delete_tcluster" 1
    ∷ entry "pipe" 2
    ∷ entry "get_uid" 0
    ∷ entry "rename" 7
    ∷ entry "sysconf" 3
    ∷ entry "spawn" 7
    ∷ entry "get_tid" 0
    ∷ entry "manage_tcluster" 4
    ∷ entry "fcntl" 3
    ∷ entry "exit_thread" 0
    ∷ entry "getrandom" 2
    ∷ entry "mprotect" 3
    ∷ entry "sync" 0
    ∷ entry "set_mac_capabilities" 1
    ∷ entry "get_mac_capabilities" 0
    ∷ entry "add_mac_permissions" 3
    ∷ entry "set_mac_enforcement" 1
    ∷ entry "mount" 6
    ∷ entry "umount" 3
    ∷ entry "readlink" 5
    ∷ entry "getdents" 3
    ∷ entry "makenode" 5
    ∷ entry "truncate" 2
    ∷ entry "bind" 3
    ∷ entry "symlink" 6
    ∷ entry "connect" 3
    ∷ entry "openpty" 3
    ∷ entry "fsync" 2
    ∷ entry "link" 6
    ∷ entry "ptrace" 4
    ∷ entry "listen" 2
    ∷ entry "accept" 4
    ∷ entry "getrlimit" 1
    ∷ entry "setrlimit" 2
    ∷ entry "faccess" 5
    ∷ entry "poll" 3
    ∷ entry "geteuid" 0
    ∷ entry "setuids" 2
    ∷ entry "fchmod" 5
    ∷ entry "umask" 1
    ∷ entry "reboot" 2
    ∷ entry "fchown" 6
    ∷ entry "pread" 4
    ∷ entry "pwrite" 4
    ∷ entry "getsockname" 3
    ∷ entry "getpeername" 3
    ∷ entry "shutdown" 2
    ∷ entry "futex" 4
    ∷ entry "clock" 3
    ∷ entry "clock_nanosleep" 4
    ∷ entry "getrusage" 2
    ∷ entry "recvfrom" 6
    ∷ entry "sendto" 6
    ∷ entry "config_netinterface" 3
    ∷ entry "utimes" 5
    ∷ entry "create_tcluster" 0
    ∷ entry "switch_tcluster" 2
    ∷ entry "sigprocmask" 3
    ∷ entry "sigaction" 3
    ∷ entry "sendsignal" 2
    ∷ entry "getprio" 2
    ∷ entry "setprio" 3
    ∷ entry "getgid" 0
    ∷ entry "getegid" 0
    ∷ entry "setgids" 2
    ∷ entry "getgroups" 2
    ∷ entry "setgroups" 2
    ∷ entry "ttyname" 3
    ∷ entry "fadvise" 4
    ∷ entry "shmat" 3
    ∷ entry "shmctl" 3
    ∷ entry "shmdt" 1
    ∷ entry "shmget" 3
    ∷ entry "getsockopt" 5
    ∷ entry "setsockopt" 5
    ∷ entry "get_thread_name" 3
    ∷ hole
    ∷ entry "failure_policy" 2
    ∷ entry "create_thread" 5
    ∷ entry "signal_return" 0
    ∷ []
