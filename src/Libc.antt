-- ===== src/Libc.antt =====
-- What the programs use of the C library: texts, number formats and `getopt`.
pub mod Text
pub mod Format
pub mod Getopt
