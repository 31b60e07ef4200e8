-- ===== src/Strace/Coverage.antt =====
-- Which calls src/strace.c can print, by a look at every entry of its table.
use util_ironclad.Base.{
  ℕ, Option, none, some, Bool, true, false, ◌==◌, ltb, leb, ◌≡◌, ◌↔◌, ◌⊎◌, ◌<◌, inl, inr, refl,
  arith, passes_under, passes_under_lem, get_elem?, take, ◌||◌, not, Bool-cases, Option-cases,
  if◌then◌else◌, ◌++◌, ◌≢◌,
}
use util_ironclad.Libc.Text.{Bytes, codes}
use util_ironclad.Strace.Table.{SyscallInfo, syscalls, max_syscall_idx}
use util_ironclad.Strace.Print.{
  Registers, hex_list, arguments, print_arguments, print_known, print_syscall,
}

-- The indices that the table's initialiser passes over, and those of calls with seven arguments.
abbrev is_hole : ℕ → Bool
is_hole i = i == 21 || i == 98

abbrev pub is_seven : ℕ → Bool
is_seven i = i == 25 || i == 27

abbrev same : Bool → Bool → Bool
same true b = b
same false b = not b

-- What the table says at an index: whether there is a name, and whether the arguments are printed.
unfoldable pub named : Option SyscallInfo → Bool
named none = false
named (some info) = elim info.name [ none ↦ false | some name ↦ true ]

unfoldable pub printable : Option SyscallInfo → Bool
printable none = false
printable (some info) = leb info.arg_count 6

table_names : passes_under (λ i. same (is_hole i) (not (named (get_elem? syscalls i)))) 102 ≡ true
unfolding passes_under named syscalls codes
table_names = refl

table_counts :
    passes_under (λ i. same (is_seven i) (not (printable (get_elem? syscalls i)))) 102 ≡ true
unfolding passes_under printable syscalls codes
table_counts = refl

hole_iff :
    (i : ℕ) (b : Bool) → same (is_hole i) (not b) ≡ true → (b ≡ false) ↔ ((i ≡ 21) ⊎ (i ≡ 98))
hole_iff i b h = ground arith

named_iff : (i : ℕ) → i < 102 → (named (get_elem? syscalls i) ≡ false) ↔ ((i ≡ 21) ⊎ (i ≡ 98))
named_iff i h = hole_iff i (named (get_elem? syscalls i)) (
    passes_under_lem (λ i. same (is_hole i) (not (named (get_elem? syscalls i)))) 102 i h
      table_names)

print_known-none :
    (info : Option SyscallInfo) (s : Registers) → (print_known info s ≡ none) ↔ (named info ≡ false)
unfolding print_known named
print_known-none none s = (λ _. refl, λ _. refl)
print_known-none (some info) s = ground arith

above_table : (i : ℕ) (t : Bytes) → ltb 101 i ≡ true → (some t ≡ none) ↔ ((i ≡ 21) ⊎ (i ≡ 98))
above_table i t h = ground arith

in_table : (i : ℕ) → ltb 101 i ≡ false → i < 102
in_table i h = ground arith

-- The print of a stop has no defined result exactly at the calls 21 and 98, where the name is null.
pub print_syscall-eq-none_iff :
    (s : Registers) → (print_syscall s ≡ none) ↔ ((s.rax ≡ 21) ⊎ (s.rax ≡ 98))
unfolding print_syscall
print_syscall-eq-none_iff s = elim (Bool-cases (ltb max_syscall_idx s.rax)) [
  | inl above ↦ rw above (above_table s.rax _ above)
  | inr below ↦ rw below (
      let e = print_known-none (get_elem? syscalls s.rax) s in
      let f = named_iff s.rax (in_table s.rax below) in (λ h. f.0 (e.0 h), λ h. e.1 (f.1 h)))
]

seven_eq : (b : Bool) (i : ℕ) → same (is_seven i) (not b) ≡ true → b ≡ not (is_seven i)
seven_eq b i h = ground arith

printable_eq : (i : ℕ) → i < 102 → printable (get_elem? syscalls i) ≡ not (is_seven i)
printable_eq i h = seven_eq (printable (get_elem? syscalls i)) i (
    passes_under_lem (λ i. same (is_seven i) (not (printable (get_elem? syscalls i)))) 102 i h
      table_counts)

print_known_lem :
    (info : Option SyscallInfo) (s : Registers) (seven : Bool)
    → named info ≡ true
    → printable info ≡ not seven
    → (name : Bytes) × (n : ℕ) × (info ≡ some (record { name = some name; arg_count = n }))
      × (print_known info s
          ≡ some (
              name
              ++ (codes "("
                  ++ ((if seven then codes "too many args" else hex_list (take n (arguments s)))
                      ++ codes ")"))))
unfolding print_known print_arguments named printable
print_known_lem none s seven h k = ground arith
print_known_lem (some info) s seven h k = elim (Option-cases info.name) [
  | inl e ↦ absurd (ground arith)
  | inr (name, e) ↦ (name, info.arg_count, ground arith, ground arith)
]

not_above : (i : ℕ) → i < 102 → ltb 101 i ≡ false
not_above i h = ground arith

named_lem : (i : ℕ) → i < 102 → i ≢ 21 → i ≢ 98 → named (get_elem? syscalls i) ≡ true
named_lem i h h21 h98 = elim (Bool-cases (named (get_elem? syscalls i))) [
  | inl e ↦ e
  | inr e ↦ elim ((named_iff i h).0 e) [ inl p ↦ absurd (h21 p) | inr p ↦ absurd (h98 p) ]
]

-- A call below 102 that has a name in the table is printed as that name and its arguments in
-- brackets, as many as the table says. The calls 25 and 27 are printed with "too many args" in
-- place of the arguments.
pub print_syscall_listed :
    (s : Registers)
    → s.rax < 102
    → s.rax ≢ 21
    → s.rax ≢ 98
    → (name : Bytes) × (n : ℕ) × (get_elem? syscalls s.rax
        ≡ some (record { name = some name; arg_count = n }))
      × (print_syscall s
          ≡ some (
              name
              ++ (codes "("
                  ++ ((if is_seven s.rax
                        then codes "too many args"
                        else hex_list (take n (arguments s)))
                      ++ codes ")"))))
unfolding print_syscall
print_syscall_listed s h h21 h98 = rw (not_above s.rax h) (
    print_known_lem (get_elem? syscalls s.rax) s (is_seven s.rax) (named_lem s.rax h h21 h98)
      (printable_eq s.rax h))
