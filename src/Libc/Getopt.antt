-- ===== src/Libc/Getopt.antt =====
-- `getopt` of POSIX, as the sequence of its results.
pub mod Laws
use util_ironclad.Base.{
  ℕ, Bool, true, false, List, [], ◌∷◌, Option, none, some, ◌==◌, if◌then◌else◌,
}
use util_ironclad.Libc.Text.{Bytes, codes, str_eq}

-- What the calls return. Each result carries `argv + optind` as it stands after the call.
--   done: -1, the arguments are used up
--   opt c arg: the option `c`, with `optarg` if it takes an argument
--   bad c: '?' with `optopt` = c, an option that is unknown or lacks its argument
pub data Opts : Type 0 where
  done : List Bytes → Opts
  opt : ℕ → Bytes → List Bytes → Opts → Opts
  bad : ℕ → List Bytes → Opts → Opts

-- Whether the option `c` is in the option string, and then whether a colon follows it; a
-- colon is no option.
unfoldable pub find_option : Bytes → ℕ → Option Bool
find_option [] c = none
find_option (d ∷ []) c = if d == b':' then none else if d == c then some false else none
find_option (d ∷ e ∷ spec) c =
    let rest = find_option (e ∷ spec) c in
    if d == b':' then rest else if d == c then some (e == b':') else rest

-- The options `c ∷ cs` of the argument `whole`. `scan_rest` reads the arguments after it, given the
-- option at its end that still lacks an argument. Inside `whole`, `optind` still points to it.
unfoldable pub cluster : Bytes → Bytes → Bytes → List Bytes → (Option ℕ → Opts) → Opts
unfolding find_option
cluster spec whole [] args scan_rest = scan_rest none
cluster spec whole (c ∷ []) args scan_rest = elim (find_option spec c) [
  | none ↦ bad c args (scan_rest none)
  | some false ↦ opt c [] args (scan_rest none)
  | some true ↦ scan_rest (some c)
]
cluster spec whole (c ∷ d ∷ cs) args scan_rest = elim (find_option spec c) [
  | none ↦ bad c (whole ∷ args) (cluster spec whole (d ∷ cs) args scan_rest)
  | some false ↦ opt c [] (whole ∷ args) (cluster spec whole (d ∷ cs) args scan_rest)
  | some true ↦ opt c (d ∷ cs) args (scan_rest none)
]

-- The arguments, and the option before them that waits for its argument.
unfoldable pub scan : Bytes → Option ℕ → List Bytes → Opts
unfolding cluster str_eq codes
scan spec (some c) [] = bad c [] (done [])
scan spec (some c) (a ∷ args) = opt c a args (scan spec none args)
scan spec none [] = done []
scan spec none ([] ∷ args) = done ([] ∷ args)
scan spec none ((d ∷ []) ∷ args) = done ((d ∷ []) ∷ args)
scan spec none ((d ∷ c ∷ cs) ∷ args) = elim (d == b'-') [
  | false ↦ done ((d ∷ c ∷ cs) ∷ args)
  | true ↦ elim (str_eq (c ∷ cs) (codes "-")) [
    | true ↦ done args
    | false ↦ cluster spec (d ∷ c ∷ cs) (c ∷ cs) args (λ waiting. scan spec waiting args)
  ]
]

-- The results for the arguments after `argv[0]`.
unfoldable pub getopt : Bytes → List Bytes → Opts
unfolding scan
getopt spec args = scan spec none args

-- Every option that is returned satisfies `P`.
abbrev pub AllOpts {ℓ} : (ℕ → Type ℓ) → Opts → Type ℓ
AllOpts P (done rest) = Unit
AllOpts P (opt c arg rest more) = P c × AllOpts P more
AllOpts P (bad c rest more) = AllOpts P more
