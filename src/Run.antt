-- ===== src/Run.antt =====
-- How a program runs: it writes, calls the system, and ends with a status. A run is a function of
-- the events so far, so that the system's reply to a call may depend on all that went before.
pub mod Options
pub mod Ends
pub mod Arrays
pub mod Flags
use util_ironclad.Base.{List, [], ◌∷◌, ◌++◌, ℤ, pos, map, ℕ, Bool, true, false, ◌≡◌, refl, ap}
use util_ironclad.Libc.Text.{Bytes}
use util_ironclad.Libc.Getopt.{Opts, done, opt, bad}

-- `C` is the type of the program's calls of the system.
pub data Event (C : Type 0) : Type 0 where
  stdout : Bytes → Event C
  stderr : Bytes → Event C
  -- `perror(s)`: the text `s`, and the message for `errno`
  perror : Bytes → Event C
  call : C → Event C

abbrev pub Log : Type 0 → Type 0
Log C = List (Event C)

-- Going on with a value, ending with a status, the program image replaced by `exec`, or a step that
-- C leaves undefined.
pub data Step (A : Type 0) : Type 0 where
  next : A → Step A
  exit : ℤ → Step A
  replaced : Step A
  fault : Step A

abbrev pub Run : Type 0 → Type 0 → Type 0
Run C A = Log C → Step A × Log C

infixl 5 ◌>>=◌ ◌>>◌
abbrev pub ◌>>=◌ : {C A B : Type 0} → Run C A → (A → Run C B) → Run C B
◌>>=◌ m f log = elim ((m log).0) [
  | next a ↦ f a (m log).1
  | exit status ↦ (exit status, (m log).1)
  | replaced ↦ (replaced, (m log).1)
  | fault ↦ (fault, (m log).1)
]

abbrev pub ◌>>◌ : {C A B : Type 0} → Run C A → Run C B → Run C B
m >> k = m >>= λ _. k

abbrev pub return : {C A : Type 0} → A → Run C A
return a log = (next a, log)

-- `return status` of `main`
abbrev pub stop : {C A : Type 0} → ℤ → Run C A
stop status log = (exit status, log)

abbrev pub exec_done : {C A : Type 0} → Run C A
exec_done log = (replaced, log)

abbrev pub undefined : {C A : Type 0} → Run C A
undefined log = (fault, log)

abbrev pub put : {C : Type 0} → Event C → Run C (Unit {0})
put e log = (next tt, log ++ (e ∷ []))

-- A call of the system: it is logged, and the reply may depend on the log before it.
abbrev pub ask : {C A : Type 0} → C → (Log C → A) → Run C A
ask c reply log = (next (reply log), log ++ (call c ∷ []))

-- `puts` of several lines
abbrev pub puts : {C : Type 0} → List Bytes → Run C (Unit {0})
puts lines log = (next tt, log ++ map (λ s. stdout (s ++ (10 ∷ []))) lines)

abbrev pub when : {C : Type 0} → Bool → Run C (Unit {0}) → Run C (Unit {0})
when true m = m
when false m = return tt

-- A message by `perror` or to standard error, and `return 1`.
abbrev pub fail : {C A : Type 0} → Bytes → Run C A
fail message = put (perror message) >> stop (pos 1)

abbrev pub complain : {C A : Type 0} → Bytes → Run C A
complain message = put (stderr message) >> stop (pos 1)

-- `while ((c = getopt(...)) != -1) switch (c) ...` over the variables `s`. `on_opt` is the `case` of
-- an option, with `optarg`. `on_bad` is the `default:` case, given `optopt`: where it comes back it
-- leaves the loop, as `goto END_WHILE` does. The result is `s` and `argv + optind`.
module _ {C S : Type 0} (on_opt : ℕ → Bytes → S → Run C S) (on_bad : ℕ → Run C (Unit {0})) where
  unfoldable pub while_getopt : Opts → S → Run C (S × List Bytes)
  while_getopt (done rest) s = return (s, rest)
  while_getopt (opt c arg rest more) s = do s' ← on_opt c arg s; while_getopt more s'
  while_getopt (bad c rest more) s = do on_bad c; return (s, rest)

-- Two runs that begin alike are equal if they go on alike.
pub bind_congr :
    {C A B : Type 0} (m : Run C A) (k k' : A → Run C B) (log : Log C)
    → ((a : A) (log' : Log C) → k a log' ≡ k' a log')
    → (m >>= k) log ≡ (m >>= k') log
bind_congr {C} {A} {B} m k k' log same = go (m log).0
  where
    go :
        (s : Step A)
        → ◌≡◌ {A = Step B × Log C}
            (elim s [
              | next a ↦ k a (m log).1
              | exit status ↦ (exit status, (m log).1)
              | replaced ↦ (replaced, (m log).1)
              | fault ↦ (fault, (m log).1)
            ])
            (elim s [
              | next a ↦ k' a (m log).1
              | exit status ↦ (exit status, (m log).1)
              | replaced ↦ (replaced, (m log).1)
              | fault ↦ (fault, (m log).1)
            ])
    go (next a) = same a (m log).1
    go (exit status) = refl
    go replaced = refl
    go fault = refl

-- A run whose first part goes on with `a` goes on from there.
pub bind_next :
    {C A B : Type 0} (m : Run C A) (f : A → Run C B) {log log' : Log C} {a : A}
    → m log ≡ (next a, log')
    → (m >>= f) log ≡ f a log'
bind_next {C} {A} {B} m f e = ap after e
  where
    after : Step A × Log C → Step B × Log C
    after p = elim p.0 [
      | next a ↦ f a p.1
      | exit status ↦ (exit status, p.1)
      | replaced ↦ (replaced, p.1)
      | fault ↦ (fault, p.1)
    ]

-- Two runs that begin alike are equal if they go on alike from what the first part gives.
pub bind_congr_next :
    {C A B : Type 0} (m : Run C A) (k k' : A → Run C B) (log : Log C)
    → ((a : A) → (m log).0 ≡ next a → k a (m log).1 ≡ k' a (m log).1)
    → (m >>= k) log ≡ (m >>= k') log
bind_congr_next {C} {A} {B} m k k' log same = go (m log).0 refl
  where
    after : (A → Run C B) → Step A → Step B × Log C
    after f s = elim s [
      | next a ↦ f a (m log).1
      | exit status ↦ (exit status, (m log).1)
      | replaced ↦ (replaced, (m log).1)
      | fault ↦ (fault, (m log).1)
    ]

    go : (s : Step A) → (m log).0 ≡ s → after k s ≡ after k' s
    go (next a) e = same a e
    go (exit status) e = refl
    go replaced e = refl
    go fault e = refl

-- Where a run goes on after its first part, it ends as the rest does.
pub bind_step :
    {C A B : Type 0} (m : Run C A) (f : A → Run C B) (log : Log C) (a : A)
    → (m log).0 ≡ next a
    → ((m >>= f) log).0 ≡ (f a (m log).1).0
bind_step {C} {A} {B} m f log a e =
    ap (λ (p : Step B × Log C). p.0)
      (bind_next {C = C} {A = A} {B = B} m f {log = log} {log' = (m log).1} {a = a}
        (λ i. (e i, (m log).1)))

-- Two runs whose first parts do the same are equal.
pub bind_first :
    {C A B : Type 0} (m m' : Run C A) (f : A → Run C B) (log : Log C)
    → m log ≡ m' log
    → (m >>= f) log ≡ (m' >>= f) log
bind_first {C} {A} {B} m m' f log e = ap after e
  where
    after : Step A × Log C → Step B × Log C
    after p = elim p.0 [
      | next a ↦ f a p.1
      | exit status ↦ (exit status, p.1)
      | replaced ↦ (replaced, p.1)
      | fault ↦ (fault, p.1)
    ]
