-- ===== src/Login/Success.antt =====
-- When src/login.c does start a shell.
use util_ironclad.Base.{
  Bool, true, false, Option, none, some, List, [], ◌∷◌, ◌++◌, ◌≡◌, refl, ap, ◌∙◌, arith, All,
}
use util_ironclad.Libc.Text.{Bytes, codes}
use util_ironclad.Run.{Log, next, replaced, call, Step, bind_step, ◌>>=◌}
use util_ironclad.Login.System.{Passwd, Call, getpwnam, System, Round}
use util_ironclad.Login.Main.{
  cut_line, stored, read_name, check, enter, look_up, serve, round, print_whole_file, sessions,
  main,
}
use util_ironclad.Login.Conditions.{
  IsNamed, Refused, empty_line, unknown, invalid, mismatch, Passes, IsReady, passing_key,
  check-IsTried, check-Passes, enter-IsReady,
}

module _ (sys : System) where
  read_name_lem :
      (r : Round) (user : Option Bytes) (text : Bytes) (log : Log Call)
      → r.line ≡ some text
      → (read_name r user log).0 ≡ next (cut_line text)
  unfolding read_name stored
  read_name_lem r user text log e = ground arith

  look_up_listed :
      (r : Round) (name : Bytes) (pwd : Passwd) (log : Log Call)
      → r.passwd name ≡ some pwd
      → look_up sys r name log
        ≡ (check sys r pwd name >>= enter sys r pwd) (log ++ (call (getpwnam name) ∷ []))
  unfolding look_up
  look_up_listed r name pwd log e = rw e refl

  -- A round with a line that is typed serves the name in it.
  round_typed :
      (r : Round) (user : Option Bytes) (text : Bytes) (log : Log Call)
      → r.line ≡ some text
      → (round sys r user log).0 ≡ (serve sys r (cut_line text) (read_name r user log).1).0
  unfolding round
  round_typed r user text log e =
      bind_step {C = Call} {A = Bytes} {B = Bytes} (read_name r user) (serve sys r) log
        (cut_line text) (read_name_lem r user text log e)

  -- A round of a listed user is what the tests of the password and their result come to.
  round-IsNamed :
      (r : Round) (user : Option Bytes) (text : Bytes) (pwd : Passwd) (log : Log Call) (key : Bytes)
      (ok : Bool)
      → IsNamed r text pwd
      → ((l : Log Call) → (check sys r pwd (cut_line text) l).0 ≡ next (key, ok))
      → (l : Log Call) × ((round sys r user log).0 ≡ (enter sys r pwd (key, ok) l).0)
  unfolding serve
  round-IsNamed r user text pwd log key ok n c =
      let l : Log Call = (read_name r user log).1 ++ (call (getpwnam (cut_line text)) ∷ []) in
      (
        (check sys r pwd (cut_line text) l).1,
        round_typed r user text log n.typed
            ∙ rw n.not_empty (
                ap (λ (p : Step Bytes × Log Call). p.0)
                  (look_up_listed r (cut_line text) pwd _ n.listed))
            ∙ bind_step {C = Call} {A = Bytes × Bool} {B = Bytes} (check sys r pwd (cut_line text))
                (enter sys r pwd) l (key, ok) (c l),
      )

  -- A round of a user who passes ends in a shell.
  round-Passes :
      (r : Round) (user : Option Bytes) (text : Bytes) (pwd : Passwd) (tty : Bytes) (log : Log Call)
      → IsNamed r text pwd
      → Passes sys r pwd
      → IsReady sys r pwd tty
      → (round sys r user log).0 ≡ replaced
  round-Passes r user text pwd tty log n p h =
      let (l, e) =
        round-IsNamed r user text pwd log (passing_key sys r pwd (cut_line text) p) true n
          (λ l. check-Passes sys r pwd (cut_line text) l p) in
      e ∙ enter-IsReady sys r pwd tty _ l h

  round-Refused :
      (r : Round) (user : Option Bytes) (log : Log Call)
      → Refused sys r
      → (text : Bytes) × ((round sys r user log).0 ≡ next text)
  unfolding serve look_up check enter
  round-Refused r user log (empty_line text e z) =
      (cut_line text, round_typed r user text log e ∙ rw z refl)
  round-Refused r user log (unknown text e f) =
      (cut_line text, round_typed r user text log e ∙ ground arith)
  round-Refused r user log (invalid text pwd n f g) =
      let (l, e) =
        round-IsNamed r user text pwd log (cut_line text) false n (λ l. rw (f, g) refl) in
      (cut_line text, e)
  round-Refused r user log (mismatch text word hash pwd n t f) =
      let (l, e) =
        round-IsNamed r user text pwd log word false n (λ l.
          check-IsTried sys r pwd (cut_line text) word hash l t ∙ ap (λ b. next (word, b)) f) in
      (word, e)

  sessions-replaced :
      (earlier later : List Round) (r : Round) (user : Option Bytes) (log : Log Call)
      → All (Refused sys) earlier
      → ((user : Option Bytes) (log : Log Call) → (round sys r user log).0 ≡ replaced)
      → (sessions sys (earlier ++ (r ∷ later)) user log).0 ≡ replaced
  unfolding sessions
  sessions-replaced [] later r user log h g = ground (arith, g user log)
  sessions-replaced (q ∷ earlier) later r user log (f, h) g =
      let (text, e) = round-Refused q user log f in
      bind_step {C = Call} {A = Bytes} {B = Option Bytes} (round sys q user)
        (λ text. sessions sys (earlier ++ (r ∷ later)) (some text)) log text e
      ∙ sessions-replaced earlier later r (some text) (round sys q user log).1 h g

  print_whole_file_lem :
      (path : Bytes) (contents : Option Bytes) (log : Log Call)
      → (print_whole_file path contents log).0 ≡ next tt
  unfolding print_whole_file
  print_whole_file_lem path none log = refl
  print_whole_file_lem path (some text) log = refl

  -- After any number of refused rounds, a user who is listed and has no password, or types the right one,
  -- gets a program in place of the login, where the child is the one that goes on, its entry fits and
  -- `execl` succeeds.
  pub login_opens :
      (issue : Option Bytes) (earlier later : List Round) (r : Round) (text : Bytes) (pwd : Passwd)
      (tty : Bytes) (log : Log Call)
      → All (Refused sys) earlier
      → IsNamed r text pwd
      → Passes sys r pwd
      → IsReady sys r pwd tty
      → (main sys issue (earlier ++ (r ∷ later)) log).0 ≡ replaced
  unfolding main
  login_opens issue earlier later r text pwd tty log h n p ready =
      bind_step {C = Call} {A = Unit {0}} {B = Option Bytes}
        (print_whole_file (codes "/etc/issue") issue)
        (λ _. sessions sys (earlier ++ (r ∷ later)) none) log tt
        (print_whole_file_lem (codes "/etc/issue") issue log)
      ∙ sessions-replaced earlier later r none _ h
          (λ user l. round-Passes r user text pwd tty l n p ready)
