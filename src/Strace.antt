-- ===== src/Strace.antt =====
-- src/strace.c: the tracer of system calls. The table is in Strace/Table, the printing of one stop in
-- Strace/Print, the bookkeeping of the threads in Strace/Threads, and `main` in Strace/Main.
pub mod Table
pub mod Print
pub mod Threads
pub mod Main
pub mod Phases
pub mod Refinement
pub mod Coverage
