-- ===== src/Run/Ends.antt =====
-- Where a run in two parts was replaced by another program.
use util_ironclad.Base.{◌≡◌, refl, arith, ◌⊎◌, inl, inr}
use util_ironclad.Run.{Run, Log, Step, next, exit, replaced, fault, ◌>>=◌}

module _ {C A B : Type 0} where
  abbrev after : (A → Run C B) → Step A → Log C → Step B × Log C
  after f (next a) log = f a log
  after f (exit status) log = (exit status, log)
  after f replaced log = (replaced, log)
  after f fault log = (fault, log)

  split_end :
      (f : A → Run C B) (s : Step A) (log out : Log C)
      → after f s log ≡ (replaced, out)
      → ((s ≡ replaced) × (log ≡ out)) ⊎ ((a : A) × (s ≡ next a) × (f a log ≡ (replaced, out)))
  split_end f (next a) log out h = inr (a, refl, h)
  split_end f (exit status) log out h = absurd (ground arith)
  split_end f replaced log out h = inl (refl, ground arith)
  split_end f fault log out h = absurd (ground arith)

  -- Either the first part was replaced, or it went on and the second part was.
  pub bind_replaced :
      (m : Run C A) (f : A → Run C B) (log out : Log C)
      → (m >>= f) log ≡ (replaced, out)
      → (m log ≡ (replaced, out))
        ⊎ ((a : A) × ((m log).0 ≡ next a) × (f a (m log).1 ≡ (replaced, out)))
  bind_replaced m f log out h = elim (split_end f (m log).0 (m log).1 out (joined h)) [
    | inl (e, g) ↦ inl (λ i. (e i, g i))
    | inr (a, e, g) ↦ inr (a, e, g)
  ]
    where
      joined : (m >>= f) log ≡ (replaced, out) → after f (m log).0 (m log).1 ≡ (replaced, out)
      joined h = go (m log).0 h
        where
          go :
              (s : Step A)
              → ◌≡◌ {A = Step B × Log C}
                  (elim s [
                    | next a ↦ f a (m log).1
                    | exit status ↦ (exit status, (m log).1)
                    | replaced ↦ (replaced, (m log).1)
                    | fault ↦ (fault, (m log).1)
                  ])
                  (replaced, out)
              → after f s (m log).1 ≡ (replaced, out)
          go (next a) e = e
          go (exit status) e = e
          go replaced e = e
          go fault e = e
