-- ===== src/Run/Options.antt =====
-- What the loop over the options keeps.
use util_ironclad.Base.{ℕ, List, ◌≡◌, refl, arith, subst}
use util_ironclad.Libc.Text.{Bytes}
use util_ironclad.Libc.Getopt.{Opts, done, opt, bad, AllOpts}
use util_ironclad.Run.{Run, Log, Step, next, exit, replaced, fault, return, while_getopt, ◌>>=◌}

-- A run that goes on after two parts went on after the first.
bind_next_inv :
    {C A B : Type 0} (m : Run C A) (f : A → Run C B) (log : Log C) (b : B)
    → ((m >>= f) log).0 ≡ next b
    → (a : A) × ((m log).0 ≡ next a) × ((f a (m log).1).0 ≡ next b)
bind_next_inv {C} {A} {B} m f log b h = go (m log).0 refl h
  where
    after : Step A → Step B × Log C
    after s = elim s [
      | next a ↦ f a (m log).1
      | exit status ↦ (exit status, (m log).1)
      | replaced ↦ (replaced, (m log).1)
      | fault ↦ (fault, (m log).1)
    ]

    go :
        (s : Step A)
        → (m log).0 ≡ s
        → (after s).0 ≡ next b
        → (a : A) × ((m log).0 ≡ next a) × ((f a (m log).1).0 ≡ next b)
    go (next a) e h = (a, e, h)
    go (exit status) e h = absurd (ground arith)
    go replaced e h = absurd (ground arith)
    go fault e h = absurd (ground arith)

module _ {C S : Type 0} (on_opt : ℕ → Bytes → S → Run C S) (on_bad : ℕ → Run C (Unit {0}))
    (P : ℕ → Type 0) (I : S → Type 0)
    (keep : (c : ℕ) (arg : Bytes) (s s' : S) (log : Log C)
      → P c
      → I s
      → (on_opt c arg s log).0 ≡ next s'
      → I s') where
  ended :
      (s s' : S) (r rest : List Bytes)
      → I s
      → ◌≡◌ {A = Step (S × List Bytes)} (next (s, r)) (next (s', rest))
      → I s'
  ended s s' r rest i e = let same : s ≡ s' = ground arith in subst I same i

  -- If every option that occurs keeps the invariant, then it holds when the loop comes to its end.
  pub while_getopt_inv :
      (o : Opts) (s s' : S) (rest : List Bytes) (log : Log C)
      → AllOpts P o
      → I s
      → (while_getopt on_opt on_bad o s log).0 ≡ next (s', rest)
      → I s'
  unfolding while_getopt
  while_getopt_inv (done r) s s' rest log h i e = ended s s' r rest i e
  while_getopt_inv (opt c arg r more) s s' rest log (p, h) i e =
      let (s1, e1, e2) =
        bind_next_inv {C = C} {A = S} {B = S × List Bytes} (on_opt c arg s)
          (while_getopt on_opt on_bad more) log (s', rest) e in
      while_getopt_inv more s1 s' rest (on_opt c arg s log).1 h (keep c arg s s1 log p i e1) e2
  while_getopt_inv (bad c r more) s s' rest log h i e =
      let (u, e1, e2) =
        bind_next_inv {C = C} {A = Unit {0}} {B = S × List Bytes} (on_bad c) (λ _. return (s, r))
          log (s', rest) e in
      ended s s' r rest i e2
