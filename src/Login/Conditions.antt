-- ===== src/Login/Conditions.antt =====
-- What a round of src/login.c needs to come to each of its ends, and what its parts do then.
use util_ironclad.Base.{
  pos, true, false, none, some, [], ◌∷◌, ◌++◌, ◌==◌, ◌<◌, ◌≡◌, ◌⊎◌, inl, inr, refl, ap, ◌∙◌, arith,
  length, ==_iff, Bool-cases, Option-cases,
}
use util_ironclad.Libc.Text.{Bytes, codes, str_eq, str_eq_refl}
use util_ironclad.Run.{Log, next, replaced, call, bind_step}
use util_ironclad.Login.System.{Passwd, Call, echo, System, Round}
use util_ironclad.Login.Main.{
  cut_line, read_word, compare_hash, judge, test_word, ask_password, check, log_login, become_user,
  start_shell, after_fork, welcome, admit, enter, print_whole_file,
}

-- The name is typed and is that of the user.
pub record IsNamed (r : Round) (text : Bytes) (pwd : Passwd) : Type 0 where
  pub typed : r.line ≡ some text
  pub not_empty : (length (cut_line text) == 0) ≡ false
  pub listed : r.passwd (cut_line text) ≡ some pwd

-- A password of 128 bytes is asked for, and the word that is typed fits its array and has this hash.
pub record IsTried (sys : System) (r : Round) (pwd : Passwd) (word hash : Bytes) : Type 0 where
  pub hashed : length pwd.pw_passwd ≡ 128
  pub word_typed : r.word ≡ some word
  pub word_fits : length word < 65
  pub word_hash : sys.crypt word (codes "GL") ≡ some hash

-- The round ends at the prompt again: an empty line, an unknown name, an entry of another length, or a
-- wrong password.
pub data Refused (sys : System) (r : Round) : Type 0 where
  empty_line :
      (text : Bytes) → r.line ≡ some text → (length (cut_line text) == 0) ≡ true → Refused sys r
  unknown : (text : Bytes) → r.line ≡ some text → r.passwd (cut_line text) ≡ none → Refused sys r
  invalid :
      (text : Bytes) (pwd : Passwd)
      → IsNamed r text pwd
      → str_eq pwd.pw_passwd [] ≡ false
      → (length pwd.pw_passwd == 128) ≡ false
      → Refused sys r
  mismatch :
      (text word hash : Bytes) (pwd : Passwd)
      → IsNamed r text pwd
      → IsTried sys r pwd word hash
      → str_eq pwd.pw_passwd hash ≡ false
      → Refused sys r

-- The user has no password, or types the right one.
abbrev pub Passes : System → Round → Passwd → Type 0
Passes sys r pwd = (pwd.pw_passwd ≡ []) ⊎ ((word : Bytes) × IsTried sys r pwd word pwd.pw_passwd)

-- The child of the round can write its entry and start the shell.
pub record IsReady (sys : System) (r : Round) (pwd : Passwd) (tty : Bytes) : Type 0 where
  pub is_child : r.child ≡ pos 0
  pub tty_known : r.tty ≡ some tty
  pub name_fits : length pwd.pw_name < sys.ut_user_size
  pub tty_fits : length tty < sys.ut_line_size
  pub executes : r.exec_fails ≡ false

-- What is in `user` after the tests of a user who passes.
abbrev pub passing_key :
    (sys : System) (r : Round) (pwd : Passwd) → Bytes → Passes sys r pwd → Bytes
passing_key sys r pwd name (inl e) = name
passing_key sys r pwd name (inr (word, t)) = word

not_empty_text : (s : Bytes) → length s ≡ 128 → str_eq s [] ≡ false
unfolding str_eq
not_empty_text [] h = absurd (omega arith)
not_empty_text (c ∷ s) h = refl

module _ (sys : System) where
  compare_hash_lem :
      (pwd : Passwd) (word hash : Bytes) (log : Log Call)
      → sys.crypt word (codes "GL") ≡ some hash
      → (compare_hash sys pwd word log).0 ≡ next (str_eq pwd.pw_passwd hash)
  unfolding compare_hash
  compare_hash_lem pwd word hash log e = elim (Bool-cases (str_eq pwd.pw_passwd hash)) [
    | inl f ↦ ground arith
    | inr f ↦ ground arith
  ]

  test_word_lem :
      (r : Round) (pwd : Passwd) (name word hash : Bytes) (log : Log Call)
      → IsTried sys r pwd word hash
      → (test_word sys r pwd name log).0 ≡ next (word, str_eq pwd.pw_passwd hash)
  unfolding test_word judge read_word
  test_word_lem r pwd name word hash log t =
      ground (arith, compare_hash_lem pwd word hash (log ++ (call (echo true) ∷ [])))

  -- What a tried password comes to.
  pub check-IsTried :
      (r : Round) (pwd : Passwd) (name word hash : Bytes) (log : Log Call)
      → IsTried sys r pwd word hash
      → (check sys r pwd name log).0 ≡ next (word, str_eq pwd.pw_passwd hash)
  unfolding check ask_password
  check-IsTried r pwd name word hash log t =
      rw (not_empty_text pwd.pw_passwd t.hashed, (==_iff _ _).1 t.hashed)
        (test_word_lem r pwd name word hash _ t)

  pub check-Passes :
      (r : Round) (pwd : Passwd) (name : Bytes) (log : Log Call) (p : Passes sys r pwd)
      → (check sys r pwd name log).0 ≡ next (passing_key sys r pwd name p, true)
  unfolding check str_eq
  check-Passes r pwd name log (inl e) = rw e refl
  check-Passes r pwd name log (inr (word, t)) =
      check-IsTried r pwd name word pwd.pw_passwd log t
      ∙ ap (λ b. next (word, b)) (str_eq_refl pwd.pw_passwd)

  log_login-IsReady :
      (r : Round) (pwd : Passwd) (tty : Bytes) (log : Log Call)
      → IsReady sys r pwd tty
      → (log_login sys r pwd log).0 ≡ next tt
  unfolding log_login
  log_login-IsReady r pwd tty log h = ground arith

  start_shell-IsReady :
      (r : Round) (pwd : Passwd) (tty : Bytes) (log : Log Call)
      → IsReady sys r pwd tty
      → (start_shell sys r pwd log).0 ≡ replaced
  unfolding start_shell become_user
  start_shell-IsReady r pwd tty log h = ground (arith, log_login-IsReady r pwd tty log h)

  after_fork-IsReady :
      (r : Round) (pwd : Passwd) (tty : Bytes) (log : Log Call)
      → IsReady sys r pwd tty
      → (after_fork sys r pwd log).0 ≡ replaced
  unfolding after_fork
  after_fork-IsReady r pwd tty log h = ground (arith, start_shell-IsReady r pwd tty log h)

  welcome_lem : (r : Round) (log : Log Call) → (welcome sys r log).0 ≡ next tt
  unfolding welcome print_whole_file
  welcome_lem r log = elim (Option-cases r.motd) [
    | inl e ↦ ground arith
    | inr (text, e) ↦ ground arith
  ]

  admit-IsReady :
      (r : Round) (pwd : Passwd) (tty : Bytes) (log : Log Call)
      → IsReady sys r pwd tty
      → (admit sys r pwd log).0 ≡ replaced
  unfolding admit
  admit-IsReady r pwd tty log h =
      bind_step {C = Call} {A = Unit {0}} {B = Unit {0}} (welcome sys r) (λ _. after_fork sys r pwd)
        log tt (welcome_lem r log)
      ∙ after_fork-IsReady r pwd tty (welcome sys r log).1 h

  pub enter-IsReady :
      (r : Round) (pwd : Passwd) (tty key : Bytes) (log : Log Call)
      → IsReady sys r pwd tty
      → (enter sys r pwd (key, true) log).0 ≡ replaced
  unfolding enter
  enter-IsReady r pwd tty key log h = ground (arith, admit-IsReady r pwd tty log h)
