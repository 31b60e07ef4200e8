-- ===== src/Libc/Getopt/Laws.antt =====
-- `getopt` stops at the first operand and returns no option that the option string lacks.
use util_ironclad.Base.{
  ℕ, Bool, true, false, Option, none, some, List, [], ◌∷◌, ◌==◌, ◌≡◌, ◌≢◌, refl, arith,
  Option-cases, inl, inr, Bool-cases,
}
use util_ironclad.Libc.Text.{Bytes, codes, str_eq}
use util_ironclad.Libc.Getopt.{Opts, done, opt, bad, find_option, cluster, scan, getopt, AllOpts}

-- `argv + optind` where a loop over the options ends: behind them, or at one that is refused.
unfoldable pub operands_of : Opts → List Bytes
operands_of (done rest) = rest
operands_of (opt c arg rest more) = operands_of more
operands_of (bad c rest more) = rest

-- An argument that does not begin with a dash.
abbrev pub IsOperand : Bytes → Type 0
IsOperand [] = Unit
IsOperand (c ∷ s) = c ≢ b'-'

pub scan_operand :
    (spec a : Bytes) (args : List Bytes) → IsOperand a → scan spec none (a ∷ args) ≡ done (a ∷ args)
unfolding scan
scan_operand spec [] args h = refl
scan_operand spec (c ∷ []) args h = refl
scan_operand spec (c ∷ d ∷ s) args h = ground arith

-- Every option that `getopt` returns is in the option string.
module _ (spec : Bytes) where
  abbrev pub IsOption : ℕ → Type 0
  IsOption c = find_option spec c ≢ none

  abbrev WaitsForOption : Option ℕ → Type 0
  WaitsForOption none = Unit
  WaitsForOption (some c) = IsOption c

  found-IsOption : (c : ℕ) (b : Bool) → find_option spec c ≡ some b → IsOption c
  found-IsOption c b e = λ n. cc

  cluster-AllOpts :
      (whole cs : Bytes) (args : List Bytes) (scan_rest : Option ℕ → Opts)
      → ((w : Option ℕ) → WaitsForOption w → AllOpts IsOption (scan_rest w))
      → AllOpts IsOption (cluster spec whole cs args scan_rest)
  unfolding cluster
  cluster-AllOpts whole [] args scan_rest h = h none tt
  cluster-AllOpts whole (c ∷ []) args scan_rest h = elim (Option-cases (find_option spec c)) [
    | inl e ↦ rw (e, cluster) (h none tt)
    | inr (true, e) ↦ rw (e, cluster) (h (some c) (found-IsOption c true e))
    | inr (false, e) ↦ rw (e, cluster) (found-IsOption c false e, h none tt)
  ]
  cluster-AllOpts whole (c ∷ d ∷ cs) args scan_rest h = elim (Option-cases (find_option spec c)) [
    | inl e ↦ rw (e, cluster) (cluster-AllOpts whole (d ∷ cs) args scan_rest h)
    | inr (true, e) ↦ rw (e, cluster) (found-IsOption c true e, h none tt)
    | inr (false, e) ↦
        rw (e, cluster) (found-IsOption c false e, cluster-AllOpts whole (d ∷ cs) args scan_rest h)
  ]

  scan-AllOpts :
      (waiting : Option ℕ) (args : List Bytes)
      → WaitsForOption waiting
      → AllOpts IsOption (scan spec waiting args)
  unfolding scan
  scan-AllOpts (some c) [] h = tt
  scan-AllOpts (some c) (a ∷ args) h = (h, scan-AllOpts none args tt)
  scan-AllOpts none [] h = tt
  scan-AllOpts none ([] ∷ args) h = tt
  scan-AllOpts none ((d ∷ []) ∷ args) h = tt
  scan-AllOpts none ((d ∷ c ∷ cs) ∷ args) h = elim (Bool-cases (d == b'-')) [
    | inr e ↦ rw (e, scan) tt
    | inl e ↦ elim (Bool-cases (str_eq (c ∷ cs) (codes "-"))) [
      | inl f ↦ rw (e, f, scan) tt
      | inr f ↦
          rw (e, f, scan)
            (cluster-AllOpts (d ∷ c ∷ cs) (c ∷ cs) args (λ w. scan spec w args)
              (λ w k. scan-AllOpts w args k))
    ]
  ]

  pub getopt-AllOpts : (args : List Bytes) → AllOpts IsOption (getopt spec args)
  unfolding getopt
  getopt-AllOpts args = scan-AllOpts none args tt
