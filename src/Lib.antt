-- ===== src/Lib.antt =====
-- util-ironclad: models of its programs, and theorems about them.
--
-- The repository is a set of small programs that are built into one executable. Each program is a file
-- src/<name>.c with a `main` that reads its options with `getopt`, calls the kernel or the C library,
-- writes, and returns a status. They share src/commons.h.
--
-- The files:
--   Base        names of the libraries, Boolean tests, lists, signed numbers, and (Base/Bits) the bits of
--               `|` and `&`
--   Libc/Text   `strcmp`, `strncmp`, `strtok`, `strcat`, `fgets` and `sscanf("%d")` on lists of
--               bytes
--   Libc/Format the conversions of `printf` that the programs use, and `snprintf`
--   Libc/Getopt `getopt` of POSIX, as the list of its results
--   Run         a program as a function of the events so far: it writes, asks the system, and goes on,
--               ends with a status, is replaced by `exec`, or does what C leaves undefined;
--               Run/Options has what the loop over the options keeps, Run/Flags the loop over options
--               that only set variables, Run/Arrays the loop that prints an array, Run/Ends where a
--               run was replaced
--   Commons     src/commons.h, `VERSION_STR`
--   Uuid        src/commons.h, `uuid_t`, and `uuid_to_string` of src/mount.c
--   Mount       src/mount.c, one child per function or part of `main`: Kinds (`string_to_type`,
--               `type_to_string`), Flags (the loops over the words of `-f` and of the table of file
--               systems), Devices (`get_path_from_uuid`), Fstab (`update_according_fstab`), Listing
--               (`update_mtab`, `print_kernel_mounts`), Main (`main`)
--   Execmac     src/execmac.c: Capabilities (`case 'c'`), Main (`main`)
--   Ps          src/ps.c: Info (what the kernel reports), Format (rows and the elapsed time), Select
--               (which processes are printed), Main (`main`)
--   Logger      src/logger.c
--   Ipcrm       src/ipcrm.c
--   Renice      src/renice.c
--   Umount      src/umount.c
--   Blkid       src/blkid.c
--   Strace      src/strace.c: Table (`syscalls`), Print (`print_syscall`, `print_error`), Threads (the
--               block `PRINTER`), Main (`main`); Phases, Refinement and Coverage hold proofs
--   Login       src/login.c: System (what the program is given), Main (the program); Shells and Rounds
--               (what one round comes to), Conditions and Success (when a shell is started)
--   Su          src/su.c
--   Powerd      src/powerd.c
--   Ipcs        src/ipcs.c
--   Dmesg       src/dmesg.c
--   Ifconfig    src/ifconfig.c
--   Lspci       src/lspci.c
--   Watch       src/watch.c
--   Showmem     src/showmem.c
--   Dumper      src/dumper.c
--   Cpuinfo     src/cpuinfo.c
--   Newgrp      src/newgrp.c
--   Lsclocks    src/lsclocks.c
--   PivotRoot   src/pivot_root.c
--   Tests       runs on concrete data
-- A file Laws under a module holds the proofs about that module, as do Mount/Fstab/Mounts and
-- Mount/Flags/Options.
--
-- The correspondence: a variable of `main` that an option sets is a field of `Settings`, or the state of
-- `while_getopt`; an `if` with a `return` is `when` with `fail`, `complain` or `stop`; an early `goto
-- END_WHILE` is a result of `on_bad` that comes back. A call of the system is an event of the log, and
-- its reply is a function of the log before it, so that the same call may be answered differently later.
-- Those replies are the record `System` of each program, and they are arbitrary. The constants of the
-- system's headers are parameters (`Constants`, `Numbers`, a function on `Capability`); where a theorem
-- needs that they are different bits it says so by `HasBits` or `HasKinds`.
--
-- The bounds: registers, identifiers and flags are natural numbers within the widths of their C
-- types, and the operations on them stay within those widths; the `size_t` of logger and watch is
-- written with its wrap-around. Signed numbers that a user gives, and the sum in renice, are whole numbers, where
-- C leaves an overflow undefined. The prints of numbers have fuel for 64 bits: 16 digits in
-- hexadecimal, 20 in decimal, 22 in octal. The block `PRINTER` has fuel 2, since an added thread is
-- found in the next pass. The endless loops of strace, login, powerd and watch are given the list of
-- their rounds, of any length; a round carries what the system replies in it.
--
-- Not modelled: the messages that `getopt` writes itself; the failure of an allocation that the code does
-- not test; closing of files and freeing, which change no result; the text of an error message that
-- `perror` adds. Floating-point numbers (watch, cpuinfo, the width in showmem) and calendar time
-- (lsclocks) are functions of `System`. Where a loop reads more elements of an array than the kernel
-- wrote, where `sscanf` writes a word past its array or `%.*s` reads past one (mount), the run is at a
-- fault. /etc/fstab is taken to have no zero byte, and is read in the buffers of 150 bytes of the source.
pub mod Base
pub mod Libc
pub mod Run
pub mod Commons
pub mod Uuid
pub mod Mount
pub mod Execmac
pub mod Ps
pub mod Logger
pub mod Ipcrm
pub mod Renice
pub mod Umount
pub mod Blkid
pub mod Login
pub mod Su
pub mod Strace
pub mod Powerd
pub mod Ipcs
pub mod Dmesg
pub mod Ifconfig
pub mod Lspci
pub mod Watch
pub mod Showmem
pub mod Dumper
pub mod Cpuinfo
pub mod Newgrp
pub mod Lsclocks
pub mod PivotRoot
pub mod Tests
