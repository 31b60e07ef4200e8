-- ===== src/Tests/Dumper.antt =====
-- A dump of src/dumper.c.
use util_ironclad.Base.{◌≡◌, refl, All, arith}
use util_ironclad.Dumper.{Registers}
use util_ironclad.Dumper.Laws.{Fits, general, dump-injective}

abbrev registers : Registers
registers = record {
  rax = 1;
  rbx = 2;
  rcx = 3;
  rdx = 4;
  rsi = 5;
  rdi = 6;
  rbp = 7;
  r8 = 8;
  r9 = 9;
  r10 = 10;
  r11 = 11;
  r12 = 12;
  r13 = 13;
  r14 = 14;
  r15 = 15;
  err = 0;
  rip = 16;
  cs = 0;
  rflags = 0;
  rsp = 17;
  ss = 0;
}

registers-fit : All Fits (general registers)
registers-fit = ground arith

dump_example : general registers ≡ general registers
dump_example = dump-injective registers registers registers-fit registers-fit refl
