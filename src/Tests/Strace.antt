-- ===== src/Tests/Strace.antt =====
-- Stops of two threads that src/strace.c prints.
use util_ironclad.Base.{
  ℕ, List, [], ◌∷◌, ◌++◌, ◌==◌, Option, none, some, true, false, if◌then◌else◌, ◌≡◌, ◌⊎◌, ◌↔◌, refl,
  arith, take, get_elem?,
}
use util_ironclad.Libc.Text.{Bytes, codes}
use util_ironclad.Strace.Table.{syscalls}
use util_ironclad.Strace.Print.{Registers, hex_list, arguments, print_syscall}
use util_ironclad.Strace.Threads.{Numbers, ThreadInfo, handled, line, advance, printer}
use util_ironclad.Strace.Main.{Round, to_stderr, trace_loop}
use util_ironclad.Strace.Phases.{
  phase?, expects, IsDistinct, settle, printer_lem, printer-IsDistinct,
}
use util_ironclad.Strace.Refinement.{phases, spec_loop, trace_loop-spec_loop}
use util_ironclad.Strace.Coverage.{is_seven, print_syscall-eq-none_iff, print_syscall_listed}

abbrev numbers : Numbers
numbers = record { exit = 0; exit_thread = 56; exec = 14 }

-- The registers at the call `rax`.
abbrev at : ℕ → Registers
at rax = record {
  rax = rax;
  rbx = 0;
  rcx = 0;
  rdx = 3;
  rsi = 2;
  rdi = 1;
  rbp = 0;
  r8 = 5;
  r9 = 6;
  r10 = 0;
  r11 = 0;
  r12 = 4;
  r13 = 0;
  r14 = 0;
  r15 = 0;
  err = 0;
  rip = 0;
  cs = 0;
  rflags = 0;
  rsp = 0;
  ss = 0;
}

abbrev stop_of : ℕ → ℕ → Round
stop_of tid rax = record {
  poll_fails = false;
  stop_read = some (tid, at rax);
  grows = true;
  exited = none;
}

abbrev last : Round
last = record { poll_fails = false; stop_read = none; grows = true; exited = some 0 }

-- Threads 7 and 8 in turn.
abbrev rounds : List Round
rounds = stop_of 7 3 ∷ stop_of 8 4 ∷ stop_of 7 3 ∷ stop_of 8 0 ∷ last ∷ []

abbrev two : List ThreadInfo
two = record { tid = 7; is_syscall = true } ∷ record { tid = 8; is_syscall = false } ∷ []

two-IsDistinct : IsDistinct two
unfolding phase?
two-IsDistinct = (refl, (refl, tt))

trace_loop_example :
    trace_loop numbers to_stderr rounds two []
    ≡ spec_loop numbers to_stderr rounds (phases numbers two) []
trace_loop_example =
    trace_loop-spec_loop numbers to_stderr rounds two [] two-IsDistinct
      (refl, (refl, (refl, (refl, (refl, tt)))))

printer_example :
    printer numbers 2 true 9 (at 3) two
    ≡ handled (settle numbers 9 (at 3) two) (line numbers 9 (at 3) (expects (phase? 9 two)) ∷ [])
printer_example = printer_lem numbers 0 9 (at 3) two two-IsDistinct

array_example :
    (infos' : List ThreadInfo) × (printed : Option Bytes) × (printer numbers 2 true 9 (at 3) two
      ≡ handled infos' (printed ∷ []))
    × IsDistinct infos'
    × ((t : ℕ)
        → phase? t infos' ≡ (
            if t == 9
            then some (advance numbers (at 3) (expects (phase? 9 two)))
            else phase? t two))
array_example = printer-IsDistinct numbers 0 9 (at 3) two two-IsDistinct

null_name_example : (print_syscall (at 21) ≡ none) ↔ (((at 21).rax ≡ 21) ⊎ ((at 21).rax ≡ 98))
null_name_example = print_syscall-eq-none_iff (at 21)

listed_call_example :
    (name : Bytes) × (n : ℕ) × (get_elem? syscalls 3
      ≡ some (record { name = some name; arg_count = n }))
    × (print_syscall (at 3)
        ≡ some (
            name
            ++ (codes "("
                ++ ((if is_seven 3
                      then codes "too many args"
                      else hex_list (take n (arguments (at 3))))
                    ++ codes ")"))))
listed_call_example =
    print_syscall_listed (at 3) (omega arith) (λ e. omega arith) (λ e. omega arith)
