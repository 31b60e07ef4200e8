-- ===== src/Login/Laws.antt =====
-- Whom src/login.c lets in.
use util_ironclad.Base.{Option, none, some, List, [], ◌∷◌, ◌++◌, ◌≡◌, inl, inr, refl, ap, arith}
use util_ironclad.Libc.Text.{Bytes, codes}
use util_ironclad.Run.{Log, replaced}
use util_ironclad.Run.Ends.{bind_replaced}
use util_ironclad.Login.System.{Passwd, Call, System, Round}
use util_ironclad.Login.Main.{print_whole_file, round, sessions, main}
use util_ironclad.Login.Shells.{Opens}
use util_ironclad.Login.Rounds.{Admits, round-Opens}

print_whole_file-ne-replaced :
    (path : Bytes) (contents : Option Bytes) (log out : Log Call)
    → print_whole_file path contents log ≡ (replaced, out)
    → ⊥
unfolding print_whole_file
print_whole_file-ne-replaced path none log out h = ground arith
print_whole_file-ne-replaced path (some text) log out h = ground arith

module _ (sys : System) where
  -- One of the rounds admitted a user, and the run ends with the shell of that user.
  abbrev pub Admitted : List Round → Log Call → Type 0
  Admitted rounds out =
      (earlier : List Round) × (r : Round) × (later : List Round) × (user : Option Bytes)
      × (pwd : Passwd) × (rounds ≡ earlier ++ (r ∷ later))
      × Admits sys r user pwd
      × Opens pwd out

  sessions-Admitted :
      (rounds : List Round) (user : Option Bytes) (log out : Log Call)
      → sessions sys rounds user log ≡ (replaced, out)
      → Admitted rounds out
  unfolding sessions
  sessions-Admitted [] user log out h = absurd (ground arith)
  sessions-Admitted (r ∷ rounds) user log out h =
      elim (bind_replaced (round sys r user) (λ text. sessions sys rounds (some text)) log out h) [
        | inl e ↦
            let (pwd, admits, opens) = round-Opens sys r user log out e in
            ([], r, rounds, user, pwd, refl, admits, opens)
        | inr (text, e, g) ↦
            let (earlier, q, later, user', pwd, same, admits, opens) =
              sessions-Admitted rounds (some text) (round sys r user log).1 out g in
            (r ∷ earlier, q, later, user', pwd, ap (λ rs. r ∷ rs) same, admits, opens)
      ]

  -- Whatever is typed in however many rounds, a shell is started only in a round in which the user that
  -- is looked up has no password, or has one of 128 bytes that is the hash of the key of that round; and
  -- it is the shell of that user, after the calls that set the identity, the variables and the folder.
  pub login_admits :
      (issue : Option Bytes) (rounds : List Round) (log out : Log Call)
      → main sys issue rounds log ≡ (replaced, out)
      → Admitted rounds out
  unfolding main
  login_admits issue rounds log out h =
      elim (bind_replaced (print_whole_file (codes "/etc/issue") issue)
        (λ _. sessions sys rounds none) log out h) [
          | inl e ↦ absurd (print_whole_file-ne-replaced (codes "/etc/issue") issue log out e)
          | inr (u, e, g) ↦ sessions-Admitted rounds none _ out g
        ]
