-- ===== src/Ps/Select/Laws.antt =====
-- What the loops of src/ps.c print.
use Prim.Native.Nat.{bit_and}
use util_ironclad.Base.{
  ℕ, ℤ, pos, negsuc, Bool, true, false, not, ◌&&◌, ◌||◌, List, [], ◌∷◌, ◌++◌, map, append-nil,
  append_assoc, ◌==◌, ◌==ℤ◌, if◌then◌else◌, ◌≡◌, ◌≢◌, refl, ◌∙◌, subst, arith, All, Bool-cases, inl,
  inr,
}
use util_ironclad.Run.{Log, next, stdout}
use util_ironclad.Ps.Info.{ProcInfo, Call}
use util_ironclad.Ps.Format.{row, proc_exited}
use util_ironclad.Ps.Select.{Settings, is_listed, print_rows, describe, print_one}

-- The elements that pass a test, in their order.
unfoldable pub keep : (ProcInfo → Bool) → List ProcInfo → List ProcInfo
keep test [] = []
keep test (p ∷ ps) = let rest = keep test ps in if test p then p ∷ rest else rest

unfoldable pub rows : List ProcInfo → Log Call
rows = map (λ p. stdout (row p))

print_rows-keep :
    (s : Settings) (current_uid : ℕ) (procs : List ProcInfo) (log : Log Call)
    → print_rows s current_uid procs log
      ≡ (next tt, log ++ rows (keep (is_listed s current_uid) procs))
unfolding print_rows keep rows
print_rows-keep s u [] log = rw append-nil
print_rows-keep s u (p ∷ ps) log = elim (Bool-cases (is_listed s u p)) [
  | inl e ↦
      rw (e, print_rows, keep)
        (print_rows-keep s u ps (log ++ (stdout (row p) ∷ [])) ∙ rw append_assoc)
  | inr e ↦ rw (e, print_rows, keep) (print_rows-keep s u ps log)
]

-- The list of processes is printed in order, one row for each process that is of the user, or of anyone
-- with `-A`, and that has not exited, or whatever its state without `-r`; nothing else is printed.
pub print_rows_lem :
    (s : Settings) (current_uid : ℕ) (procs : List ProcInfo) (log : Log Call)
    → print_rows s current_uid procs log ≡ (
      next tt,
      log
          ++ rows (
              keep
                (λ p.
                  (s.print_all_users || p.uid == current_uid)
                  && (not s.print_running || bit_and p.flags proc_exited == 0))
                procs),
    )
unfolding is_listed
print_rows_lem s current_uid procs log = print_rows-keep s current_uid procs log

-- The process has another number than the one of `-p`.
abbrev pub IsOther : Settings → ProcInfo → Type 0
IsOther s p = pos p.pid ≢ s.print_only_this

==ℤ_refl : (a : ℤ) → (a ==ℤ a) ≡ true
==ℤ_refl (pos n) = ground arith
==ℤ_refl (negsuc n) = ground arith

==ℤ_eq : (a b : ℤ) → a ≡ b → (a ==ℤ b) ≡ true
==ℤ_eq a b e = subst (λ c. (a ==ℤ c) ≡ true) e (==ℤ_refl a)

==ℤ_ne : (a b : ℤ) → a ≢ b → (a ==ℤ b) ≡ false
==ℤ_ne (pos n) (pos m) h = ground arith
==ℤ_ne (pos n) (negsuc m) h = refl
==ℤ_ne (negsuc n) (pos m) h = refl
==ℤ_ne (negsuc n) (negsuc m) h = ground arith

-- With `-p` the first process with the number is described, and no other: nothing is printed of those
-- before it or after it.
pub print_one_lem :
    (s : Settings) (before after : List ProcInfo) (p : ProcInfo) (log : Log Call)
    → All (IsOther s) before
    → pos p.pid ≡ s.print_only_this
    → print_one s (before ++ (p ∷ after)) log ≡ describe s p log
unfolding print_one
print_one_lem s [] after p log h e = rw (==ℤ_eq _ _ e, print_one) refl
print_one_lem s (q ∷ before) after p log (n, h) e =
    rw (==ℤ_ne _ _ n, print_one) (print_one_lem s before after p log h e)
