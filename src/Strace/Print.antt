-- ===== src/Strace/Print.antt =====
-- src/strace.c: `struct registers`, `print_syscall` and `print_error`.
use util_ironclad.Base.{
  ℕ, List, [], ◌∷◌, ◌++◌, Option, none, some, ◌==◌, ltb, leb, if◌then◌else◌, get_elem?, take,
}
use util_ironclad.Libc.Text.{Bytes, codes}
use util_ironclad.Libc.Format.{dec, hex}
use util_ironclad.Strace.Table.{SyscallInfo, syscalls, max_syscall_idx}

-- Every register is a `uint64_t`.
pub record Registers : Type 0 where
  pub rax : ℕ
  pub rbx : ℕ
  pub rcx : ℕ
  pub rdx : ℕ
  pub rsi : ℕ
  pub rdi : ℕ
  pub rbp : ℕ
  pub r8 : ℕ
  pub r9 : ℕ
  pub r10 : ℕ
  pub r11 : ℕ
  pub r12 : ℕ
  pub r13 : ℕ
  pub r14 : ℕ
  pub r15 : ℕ
  pub err : ℕ
  pub rip : ℕ
  pub cs : ℕ
  pub rflags : ℕ
  pub rsp : ℕ
  pub ss : ℕ

-- "0x%lx", as often as there are values, with ", " between them
unfoldable pub hex_list : List ℕ → Bytes
unfolding hex codes
hex_list [] = []
hex_list (v ∷ []) = codes "0x" ++ hex v
hex_list (v ∷ w ∷ values) = codes "0x" ++ (hex v ++ (codes ", " ++ hex_list (w ∷ values)))

-- The arguments in the order of the calling convention.
unfoldable pub arguments : Registers → List ℕ
arguments s = s.rdi ∷ s.rsi ∷ s.rdx ∷ s.r12 ∷ s.r8 ∷ s.r9 ∷ []

-- The `switch` on `arg_count`.
unfoldable pub print_arguments : ℕ → Registers → Bytes
unfolding hex_list arguments
print_arguments count state =
    if leb count 6 then hex_list (take count (arguments state)) else codes "too many args"

-- The branch for an index of the table; `none` where a null name is given to "%s".
unfoldable pub print_known : Option SyscallInfo → Registers → Option Bytes
unfolding print_arguments
print_known none state = none
print_known (some info) state = elim info.name [
  | none ↦ none
  | some name ↦ some (name ++ (codes "(" ++ (print_arguments info.arg_count state ++ codes ")")))
]

unfoldable pub print_syscall : Registers → Option Bytes
unfolding print_known syscalls
print_syscall state =
    if ltb max_syscall_idx state.rax
    then some
        (codes "(" ++ (dec state.rax ++ (codes ")(" ++ (hex_list (arguments state) ++ codes ")"))))
    else print_known (get_elem? syscalls state.rax) state

unfoldable pub print_error : Registers → Bytes
print_error state =
    if state.rdx == 0
    then codes " = 0x" ++ hex state.rax
    else codes " = 0x" ++ (hex state.rax ++ (codes " (" ++ (dec state.rdx ++ codes ")")))
