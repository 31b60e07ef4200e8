-- ===== src/Login/Rounds.antt =====
-- When a round of src/login.c ends in a shell.
use util_ironclad.Base.{
  Bool, true, false, Option, none, some, [], ◌∷◌, ◌++◌, ◌==◌, ltb, length, ◌≡◌, ◌≢◌, ◌⊎◌, inl, inr,
  refl, sym, ap, ◌∙◌, arith, ==_iff, Bool-cases, Option-cases,
}
use util_ironclad.Libc.Text.{Bytes, codes, str_eq, str_eq→eq}
use util_ironclad.Run.{Log, Step, next, exit, replaced, fault, call, ◌>>=◌, return}
use util_ironclad.Run.Ends.{bind_replaced}
use util_ironclad.Login.System.{Passwd, Call, echo, getpwnam, System, Round}
use util_ironclad.Login.Main.{
  cut_line, stored, read_name, read_word, compare_hash, judge, test_word, ask_password, check,
  admit, enter, look_up, serve, round,
}
use util_ironclad.Login.Shells.{Opens, admit-Opens}

-- The key that is hashed: the word that is typed, or the name where the input has ended.
abbrev pub key_of : Round → Bytes → Bytes
key_of r name = elim r.word [ none ↦ name | some word ↦ word ]

module _ (sys : System) where
  -- The user has no password, or the hash of the key is the one of the table.
  abbrev pub Accepts : Round → Passwd → Bytes → Type 0
  Accepts r pwd name =
      (pwd.pw_passwd ≡ [])
      ⊎ ((length pwd.pw_passwd ≡ 128)
          × (sys.crypt (key_of r name) (codes "GL") ≡ some pwd.pw_passwd))

  enter-Opens :
      (r : Round) (pwd : Passwd) (key : Bytes) (ok : Bool) (log out : Log Call)
      → enter sys r pwd (key, ok) log ≡ (replaced, out)
      → (ok ≡ true) × Opens pwd out
  unfolding enter
  enter-Opens r pwd key false log out h = absurd (ground arith)
  enter-Opens r pwd key true log out h =
      elim (bind_replaced (admit sys r pwd) (λ _. return key) log out h) [
        | inl e ↦ (refl, admit-Opens sys r pwd log out e)
        | inr (u, e, g) ↦ absurd (ground arith)
      ]

  compare_hash-Accepts :
      (pwd : Passwd) (key : Bytes) (log : Log Call)
      → ((compare_hash sys pwd key log).0 ≢ replaced)
        × ((compare_hash sys pwd key log).0 ≡ next true
            → sys.crypt key (codes "GL") ≡ some pwd.pw_passwd)
  unfolding compare_hash
  compare_hash-Accepts pwd key log = elim (Option-cases (sys.crypt key (codes "GL"))) [
    | inl e ↦ (λ h. ground arith, λ h. absurd (ground arith))
    | inr (requested, e) ↦ elim (Bool-cases (str_eq pwd.pw_passwd requested)) [
      | inl f ↦ (λ h. ground arith, λ h. e ∙ ap some (sym (str_eq→eq _ _ f)))
      | inr f ↦ (λ h. ground arith, λ h. absurd (ground arith))
    ]
  ]

  -- What is read is the key, if anything.
  read_word_lem :
      (r : Round) (name : Bytes) (log : Log Call)
      → (read_word sys r name log ≡ (next (key_of r name), log))
        ⊎ (read_word sys r name log ≡ (fault, log))
  unfolding read_word
  read_word_lem r name log = elim (Option-cases r.word) [
    | inl e ↦ inl (ground arith)
    | inr (word, e) ↦ elim (Bool-cases (ltb (length word) 65)) [
      | inl f ↦ inl (ground arith)
      | inr f ↦ inr (ground arith)
    ]
  ]

  judge-Accepts :
      (pwd : Passwd) (key : Bytes) (log : Log Call)
      → ((judge sys pwd key log).0 ≢ replaced)
        × ((k : Bytes)
            → (judge sys pwd key log).0 ≡ next (k, true)
            → sys.crypt key (codes "GL") ≡ some pwd.pw_passwd)
  unfolding judge
  judge-Accepts pwd key log = go (compare_hash sys pwd key then_log).0 refl
    where
      then_log : Log Call
      then_log = log ++ (call (echo true) ∷ [])

      go :
          (s : Step Bool)
          → (compare_hash sys pwd key then_log).0 ≡ s
          → ((judge sys pwd key log).0 ≢ replaced)
            × ((k : Bytes)
                → (judge sys pwd key log).0 ≡ next (k, true)
                → sys.crypt key (codes "GL") ≡ some pwd.pw_passwd)
      go (next true) e = (λ h. ground arith, λ k h. (compare_hash-Accepts pwd key then_log).1 e)
      go (next false) e = (λ h. ground arith, λ k h. absurd (ground arith))
      go (exit status) e = (λ h. ground arith, λ k h. absurd (ground arith))
      go fault e = (λ h. ground arith, λ k h. absurd (ground arith))
      go replaced e = absurd ((compare_hash-Accepts pwd key then_log).0 e)

  test_word-Accepts :
      (r : Round) (pwd : Passwd) (name : Bytes) (log : Log Call)
      → ((test_word sys r pwd name log).0 ≢ replaced)
        × ((k : Bytes)
            → (test_word sys r pwd name log).0 ≡ next (k, true)
            → sys.crypt (key_of r name) (codes "GL") ≡ some pwd.pw_passwd)
  unfolding test_word
  test_word-Accepts r pwd name log = elim (read_word_lem r name log) [
    | inl e ↦
        rw (e, test_word, ◌>>=◌) (judge-Accepts pwd (key_of r name) (read_word sys r name log).1)
    | inr e ↦ (λ h. ground arith, λ k h. absurd (ground arith))
  ]

  -- The tests of the password start no program, and let in only whom they accept.
  check-Accepts :
      (r : Round) (pwd : Passwd) (name : Bytes) (log : Log Call)
      → ((check sys r pwd name log).0 ≢ replaced)
        × ((key : Bytes) → (check sys r pwd name log).0 ≡ next (key, true) → Accepts r pwd name)
  unfolding check ask_password
  check-Accepts r pwd name log = elim (Bool-cases (str_eq pwd.pw_passwd [])) [
    | inl e ↦ (λ h. ground arith, λ key h. inl (str_eq→eq _ _ e))
    | inr e ↦ elim (Bool-cases (length pwd.pw_passwd == 128)) [
      | inl f ↦
          let (stays, right) = test_word-Accepts r pwd name _ in
          rw (e, f) (stays, λ key h. inr ((==_iff _ _).0 f, right key h))
      | inr f ↦ (λ h. ground arith, λ key h. absurd (ground arith))
    ]
  ]

  -- The user that the round looks up, and the name that was typed.
  abbrev pub Admits : Round → Option Bytes → Passwd → Type 0
  Admits r user pwd =
      (text : Bytes) × (stored r.line user ≡ some text)
      × (r.passwd (cut_line text) ≡ some pwd)
      × Accepts r pwd (cut_line text)

  look_up-Opens :
      (r : Round) (name : Bytes) (log out : Log Call)
      → look_up sys r name log ≡ (replaced, out)
      → (pwd : Passwd) × (r.passwd name ≡ some pwd) × Accepts r pwd name × Opens pwd out
  unfolding look_up
  look_up-Opens r name log out h = elim (Option-cases (r.passwd name)) [
    | inl e ↦ absurd (ground arith)
    | inr (pwd, e) ↦
        let then_log : Log Call = log ++ (call (getpwnam name) ∷ []) in
        elim (bind_replaced (check sys r pwd name) (enter sys r pwd) then_log out (rw e at h)) [
          | inl f ↦ absurd ((check-Accepts r pwd name then_log).0 (ap (λ p. p.0) f))
          | inr ((key, ok), f, g) ↦
              let (let_in, opens) = enter-Opens r pwd key ok _ out g in
              (
                pwd,
                e,
                (check-Accepts r pwd name then_log).1 key (f ∙ ap (λ b. next (key, b)) let_in),
                opens,
              )
        ]
  ]

  -- A round that ends in another program admitted a user and ends in the shell of that user.
  pub round-Opens :
      (r : Round) (user : Option Bytes) (log out : Log Call)
      → round sys r user log ≡ (replaced, out)
      → (pwd : Passwd) × Admits r user pwd × Opens pwd out
  unfolding round read_name serve
  round-Opens r user log out h = elim (Option-cases (stored r.line user)) [
    | inl e ↦ absurd (ground arith)
    | inr (text, e) ↦ elim (Bool-cases (length (cut_line text) == 0)) [
      | inl z ↦ absurd (ground arith)
      | inr z ↦
          let (pwd, found, accepts, opens) =
            look_up-Opens r (cut_line text) _ out (rw (e, ◌>>=◌, z) at h) in
          (pwd, (text, e, found, accepts), opens)
    ]
  ]
