-- ===== src/Watch/Laws.antt =====
-- The joined command and the header of src/watch.c.
use util_ironclad.Base.{
  ℕ, suc, ◌+◌, ◌-◌, ◌%◌, ◌^◌, ◌≤◌, ◌<◌, ◌==◌, Bool, true, false, none, some, List, [], ◌∷◌, ◌++◌,
  ◌&&◌, ◌≡◌, ◌⊎◌, refl, arith, append_assoc, ◌∙◌, ap, sym, leb, length, length-append,
  length-replicate, replicate, Bool-cases, inl, inr, ◌||◌, not,
}
use util_ironclad.Libc.Text.{Bytes, codes, strcat}
use util_ironclad.Libc.Getopt.{Opts, done, opt, bad, getopt}
use util_ironclad.Libc.Getopt.Laws.{operands_of}
use util_ironclad.Run.{Log, next, fault, while_getopt, bind_next}
use util_ironclad.Watch.{
  Settings, on_opt, on_bad, defaults, Call, System, Round, measure, join, fill, compose, padding,
  title, header, run, main,
}

-- The bytes that the words behind the first one take, each with its space.
total : List Bytes → ℕ
total [] = 0
total (arg ∷ args) = 1 + length arg + total args

measure-bound : (args : List Bytes) (n : ℕ) → measure args n ≤ n + total args
unfolding measure total
measure-bound [] n = omega arith
measure-bound (arg ∷ args) n = omega (arith, measure-bound args ((n + (1 + length arg)) % 2 ^ 64))

-- `strcat` fails where its array is too small, and else leaves room for the zero.
strcat-cases :
    (size : ℕ) (text more : Bytes)
    → ((strcat size text more ≡ none) × (size ≤ length text + length more))
      ⊎ ((strcat size text more ≡ some (text ++ more)) × (length (text ++ more) < size))
unfolding strcat
strcat-cases size text more = elim (Bool-cases (leb (length text + length more + 1) size)) [
  | inl e ↦ inr (rw e refl, ground (arith, length-append text more))
  | inr e ↦ inl (rw e refl, ground arith)
]

join-overruns :
    (size : ℕ) (words : List Bytes) (text : Bytes)
    → size ≤ length text + total words
    → length text < size
    → join size words text ≡ none
unfolding join total codes
join-overruns size [] text h k = absurd (omega arith)
join-overruns size (arg ∷ words) text h k = elim (strcat-cases size text (32 ∷ [])) [
  | inl (e, l) ↦ rw (join, e) refl
  | inr (e, l) ↦ elim (strcat-cases size (text ++ (32 ∷ [])) arg) [
    | inl (e', l') ↦ rw (join, e, e') refl
    | inr (e', l') ↦
        rw (join, e, e')
          (join-overruns size words ((text ++ (32 ∷ [])) ++ arg)
            (omega (arith, length-append (text ++ (32 ∷ [])) arg, length-append text (32 ∷ []))) l')
  ]
]

fill-overruns :
    (size : ℕ) (word : Bytes) (words : List Bytes)
    → size ≤ length word + total words
    → fill size word words ≡ none
unfolding fill
fill-overruns size word words h = elim (strcat-cases size [] word) [
  | inl (e, l) ↦ rw (fill, e) refl
  | inr (e, l) ↦ rw (fill, e) (join-overruns size words word h l)
]

compose-overruns : (word : Bytes) (words : List Bytes) → compose word words ≡ none
unfolding compose
compose-overruns word words =
    fill-overruns (measure words (length word % 2 ^ 64)) word words
      (omega (arith, measure-bound words (length word % 2 ^ 64)))

module _ (sys : System) where
  -- The options -e, -x, and -n with a number that is not zero, and no other.
  unfoldable pub is_plain : Opts → Bool
  is_plain (done rest) = true
  is_plain (opt c arg rest more) =
      let one = c == b'e' || (c == b'x' || (c == b'n' && not (sys.is_zero arg))) in
      one && is_plain more
  is_plain (bad c rest more) = false

  on_opt_plain :
      (package_version : Bytes) (c : ℕ) (arg : Bytes) (s : Settings) (log : Log Call)
      → (c == b'e' || (c == b'x' || (c == b'n' && not (sys.is_zero arg)))) ≡ true
      → (s' : Settings) × (on_opt sys package_version c arg s log ≡ (next s', log))
  unfolding on_opt
  on_opt_plain package_version c arg s log h = elim (Bool-cases (c == b'e')) [
    | inl e ↦ (record s { stop_on_fail = true }, ground arith)
    | inr e ↦ elim (Bool-cases (c == b'x')) [
      | inl x ↦ (record s { do_exec = true }, ground arith)
      | inr x ↦ (record s { seconds_for_update = some arg }, ground arith)
    ]
  ]

  options_lem :
      (package_version : Bytes) (o : Opts) (s : Settings) (log : Log Call)
      → is_plain o ≡ true
      → (s' : Settings) × (while_getopt (on_opt sys package_version) (on_bad sys) o s log
          ≡ (next (s', operands_of o), log))
  unfolding while_getopt is_plain operands_of
  options_lem package_version (done rest) s log h = (s, refl)
  options_lem package_version (opt c arg rest more) s log h =
      let (s1, e1) = on_opt_plain package_version c arg s log (ground arith) in
      let (s2, e2) = options_lem package_version more s1 log (ground arith) in
      (
        s2,
        bind_next {C = Call} {A = Settings} {B = Settings × List Bytes}
              (on_opt sys package_version c arg s)
              (while_getopt (on_opt sys package_version) (on_bad sys) more) {log = log} {log' = log}
              e1
            ∙ e2,
      )
  options_lem package_version (bad c rest more) s log h = absurd (ground arith)

  -- The array for the joined command has no room for the zero behind it: every run with a command, with
  -- any of the options -e, -x, and -n with a number that is not zero, writes past that array before its
  -- first round.
  pub watch_overruns :
      (package_version : Bytes) (args : List Bytes) (word : Bytes) (words : List Bytes)
      (rounds : List Round) (log : Log Call)
      → is_plain (getopt (codes "hvexn:") args) ≡ true
      → operands_of (getopt (codes "hvexn:") args) ≡ word ∷ words
      → main sys package_version args rounds log ≡ (fault, log)
  unfolding main run
  watch_overruns package_version args word words rounds log plain named =
      let o : Opts = getopt (codes "hvexn:") args in
      let (s, e) = options_lem package_version o defaults log plain in
      bind_next {C = Call} {A = Settings × List Bytes} {B = Unit {0}}
        (while_getopt (on_opt sys package_version) (on_bad sys) o defaults)
        (λ p. run sys p.0 p.1 rounds) {log = log} {log' = log} e
      ∙ rw (named, run, compose-overruns word words) refl

  padding_lem :
      (ws_col used : ℕ)
      → used ≤ ws_col
      → ws_col < 2 ^ 16
      → padding ws_col used ≡ some (suc (ws_col - used))
  unfolding padding
  padding_lem ws_col used h k = ground arith

  -- Where the title and the time of `asctime`, which ends with a newline, fit in a terminal of fewer than
  -- 2 ^ 16 columns, the line of the header is exactly as wide as the terminal.
  pub watch_header :
      (s : Settings) (cmd_str day : Bytes) (ws_col : ℕ)
      → length (title sys s cmd_str) + length day < ws_col
      → ws_col < 2 ^ 16
      → (line : Bytes) × (header sys s cmd_str ws_col (some (day ++ (10 ∷ [])))
          ≡ some (line ++ (10 ∷ [])))
        × (length line ≡ ws_col)
  unfolding header
  watch_header s cmd_str day ws_col fit short =
      let head : Bytes = title sys s cmd_str in
      let used : ℕ = length head + length (day ++ (10 ∷ [])) in
      let gap : Bytes = replicate (suc (ws_col - used)) 32 in
      let whole = length-append day (10 ∷ []) in
      (
        head ++ (gap ++ day),
        rw (header, padding_lem ws_col used (omega (arith, whole)) short)
            (ap (λ l. some (head ++ l)) (sym (append_assoc gap day (10 ∷ [])))
              ∙ ap some (sym (append_assoc head (gap ++ day) (10 ∷ [])))),
        omega (
          arith,
          length-append head (gap ++ day),
          length-append gap day,
          length-replicate {A = ℕ} (suc (ws_col - used)) 32,
          whole,
        ),
      )
