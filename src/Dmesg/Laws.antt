-- ===== src/Dmesg/Laws.antt =====
-- Which rows of the log src/dmesg.c prints.
use util_ironclad.Base.{
  ℕ, ◌+◌, pos, some, List, [], ◌∷◌, ◌++◌, ◌==◌, ◌≡◌, refl, arith, if◌then◌else◌, append_assoc,
  append-nil, ◌∙◌, sym, ap, ap₂, subst, length-append, length, get_elem?, take, drop, Bool-cases,
  inl, inr,
}
use util_ironclad.Libc.Text.{text_of, Bytes}
use util_ironclad.Libc.Getopt.{getopt}
use util_ironclad.Run.{Log, next, exit, call, stop, stdout, while_getopt, bind_next}
use util_ironclad.Dmesg.{Call, dumplogs, System, entry, print_entry, print_entries, show, main}

module _ {ℓ} {A : Type ℓ} where
  get_elem?_behind : (xs ys : List A) (a : A) → get_elem? (xs ++ (a ∷ ys)) (length xs) ≡ some a
  get_elem?_behind [] ys a = refl
  get_elem?_behind (x ∷ xs) ys a = get_elem?_behind xs ys a

  drop_behind : (xs ys : List A) → drop (length xs) (xs ++ ys) ≡ ys
  drop_behind [] ys = refl
  drop_behind (x ∷ xs) ys = drop_behind xs ys

  take_front : (xs ys : List A) → take (length xs) (xs ++ ys) ≡ xs
  take_front [] ys = refl
  take_front (x ∷ xs) ys = ap (λ l. x ∷ l) (take_front xs ys)

-- A row of 80 bytes.
pub record Row : Type 0 where
  pub first : ℕ
  pub rest : Bytes
  pub is_full : length rest ≡ 79

abbrev pub bytes : Row → Bytes
bytes r = r.first ∷ r.rest

abbrev pub buffer : List Row → Bytes
buffer [] = []
buffer (r ∷ rows) = bytes r ++ buffer rows

entry-row : (r : Row) (after : Bytes) → entry (bytes r ++ after) ≡ text_of (bytes r) ++ (10 ∷ [])
unfolding entry
entry-row r after =
    let full : 80 ≡ length (bytes r) = omega (arith, r.is_full) in
    ap (λ t. text_of t ++ (10 ∷ []))
      (ap (λ n. take n (bytes r ++ after)) full ∙ take_front (bytes r) after)

-- What one row adds to the log.
abbrev pub line : Row → Log Call
line r = if r.first == b'(' then stdout (text_of (bytes r) ++ (10 ∷ [])) ∷ [] else []

-- The lines of the rows that begin with '(', each up to its first zero byte.
abbrev pub lines : List Row → Log Call
lines [] = []
lines (r ∷ rows) = line r ++ lines rows

print_entry-row :
    (r : Row) (after : Bytes) (log : Log Call)
    → print_entry r.first (bytes r ++ after) log ≡ (next tt, log ++ line r)
unfolding print_entry
print_entry-row r after log = elim (Bool-cases (r.first == b'(')) [
  | inl e ↦ rw (e, entry-row r after) refl
  | inr e ↦ rw (e, append-nil) refl
]

print_entries-rows :
    (rows : List Row) (before : Bytes) (log : Log Call)
    → print_entries (length rows) (length before) (before ++ buffer rows) log
      ≡ (next tt, log ++ lines rows)
unfolding print_entries
print_entries-rows [] before log = rw append-nil refl
print_entries-rows (r ∷ rows) before log =
    let logs = before ++ buffer (r ∷ rows) in
    let beyond : length before + 80 ≡ length (before ++ bytes r) =
      omega (arith, length-append before (bytes r), r.is_full) in
    rw
      (
        print_entries,
        get_elem?_behind before (r.rest ++ buffer rows) r.first,
        drop_behind before (buffer (r ∷ rows)),
      )
      (bind_next {C = Call} {A = Unit {0}} {B = Unit {0}} (print_entry r.first (buffer (r ∷ rows)))
          (λ _. print_entries (length rows) (length before + 80) logs) {log = log}
          {log' = log ++ line r} {a = tt} (print_entry-row r (buffer rows) log)
        ∙ ap₂ (λ i l. print_entries (length rows) i l (log ++ line r)) beyond
            (sym (append_assoc before (bytes r) (buffer rows)))
        ∙ print_entries-rows rows (before ++ bytes r) (log ++ line r)
        ∙ ap (λ l. (next tt, l)) (append_assoc log (line r) (lines rows)))

module _ (sys : System) (package_version : Bytes) where
  -- Where the system call fills the buffer with 100 rows of 80 bytes, exactly the rows that begin with
  -- '(' are printed, in their order and each up to its first zero byte; no index is outside the buffer,
  -- and the status is 0.
  pub dmesg_rows :
      (n : ℕ) (rows : List Row)
      → length rows ≡ 100
      → sys.logs [] ≡ (pos n, buffer rows)
      → main sys package_version [] [] ≡ (exit (pos 0), call (dumplogs 8000) ∷ lines rows)
  unfolding main while_getopt getopt show
  dmesg_rows n rows full filled =
      let printed : print_entries 100 0 (buffer rows) (call (dumplogs 8000) ∷ [])
          ≡ (next tt, call (dumplogs 8000) ∷ lines rows) =
        subst
          (λ k.
            print_entries k 0 (buffer rows) (call (dumplogs 8000) ∷ [])
            ≡ (next tt, call (dumplogs 8000) ∷ lines rows))
          full (print_entries-rows rows [] (call (dumplogs 8000) ∷ [])) in
      rw filled (
        bind_next {C = Call} {A = Unit {0}} {B = Unit {0}} (print_entries 100 0 (buffer rows))
          (λ _. stop (pos 0)) {log = call (dumplogs 8000) ∷ []}
          {log' = call (dumplogs 8000) ∷ lines rows} {a = tt} printed)
