-- ===== src/Run/Flags.antt =====
-- The loop over options of which each one changes the variables and does nothing else.
use util_ironclad.Base.{List, [], ◌∷◌, map, ℕ, ◌≡◌, refl, ◌∙◌}
use util_ironclad.Libc.Text.{Bytes}
use util_ironclad.Libc.Getopt.{getopt}
use util_ironclad.Run.{Run, Log, next, while_getopt, bind_next, ◌>>=◌}

-- The variables after several options.
abbrev pub after_all : {S F : Type 0} → (S → F → S) → S → List F → S
after_all after s [] = s
after_all after s (f ∷ fs) = after_all after (after s f) fs

module _ {C S F : Type 0} (on_opt : ℕ → Bytes → S → Run C S) (on_bad : ℕ → Run C (Unit {0}))
    (spec : Bytes) (flag : F → Bytes) (after : S → F → S)
    (step : (f : F) (args : List Bytes) (s : S) (log : Log C)
      → while_getopt on_opt on_bad (getopt spec (flag f ∷ args)) s log
        ≡ while_getopt on_opt on_bad (getopt spec args) (after s f) log) where
  -- If each option does so, then all of them together do, and no argument is left.
  pub while_getopt-flags :
      (fs : List F) (s : S) (log : Log C)
      → while_getopt on_opt on_bad (getopt spec (map flag fs)) s log
        ≡ (next (after_all after s fs, []), log)
  unfolding while_getopt getopt
  while_getopt-flags [] s log = refl
  while_getopt-flags (f ∷ fs) s log =
      step f (map flag fs) s log ∙ while_getopt-flags fs (after s f) log

  -- What the program does after the loop.
  pub flags-run :
      {B : Type 0} (k : S × List Bytes → Run C B) (fs : List F) (s : S) (log : Log C)
      → (while_getopt on_opt on_bad (getopt spec (map flag fs)) s >>= k) log
        ≡ k (after_all after s fs, []) log
  flags-run {B} k fs s log =
      bind_next {C = C} {A = S × List Bytes} {B = B}
        (while_getopt on_opt on_bad (getopt spec (map flag fs)) s) k {log = log} {log' = log}
        (while_getopt-flags fs s log)
