-- ===== src/Login/Shells.antt =====
-- How the child of src/login.c comes to its shell.
use util_ironclad.Base.{
  pos, negsuc, [], ◌∷◌, ◌++◌, ◌==ℤ◌, ◌≡◌, inl, inr, sym, ap, ◌∙◌, arith, Bool-cases, Option-cases,
  append_assoc,
}
use util_ironclad.Libc.Text.{codes}
use util_ironclad.Run.{Log, Event, Step, replaced, call}
use util_ironclad.Run.Ends.{bind_replaced}
use util_ironclad.Login.System.{Passwd, Call, setuid, setgid, setenv, chdir, execl, System, Round}
use util_ironclad.Login.Main.{
  log_login, become_user, start_shell, after_fork, welcome, admit, print_whole_file,
}

-- What a child does before its shell runs.
abbrev pub shell_events : Passwd → Log Call
shell_events pwd =
    call (setuid pwd.pw_uid)
    ∷ call (setgid pwd.pw_gid)
    ∷ call (setenv (codes "HOME") pwd.pw_dir)
    ∷ call (setenv (codes "LOGNAME") pwd.pw_name)
    ∷ call (chdir pwd.pw_dir)
    ∷ call (execl pwd.pw_shell)
    ∷ []

-- The run comes to its end with the shell of this user.
abbrev pub Opens : Passwd → Log Call → Type 0
Opens pwd out = (before : Log Call) × (out ≡ before ++ shell_events pwd)

module _ (sys : System) where
  log_login-ne-replaced :
      (r : Round) (pwd : Passwd) (log out : Log Call)
      → log_login sys r pwd log ≡ (replaced, out)
      → ⊥
  unfolding log_login
  log_login-ne-replaced r pwd log out h = elim (Option-cases r.tty) [
    | inl e ↦ ground arith
    | inr (tty, e) ↦ ground arith
  ]

  regroup :
      (l : Log Call) (a b c d e f : Event Call)
      → (((((l ++ (a ∷ [])) ++ (b ∷ [])) ++ (c ∷ [])) ++ (d ∷ [])) ++ (e ∷ [])) ++ (f ∷ [])
        ≡ l ++ (a ∷ b ∷ c ∷ d ∷ e ∷ f ∷ [])
  regroup l a b c d e f = simp append_assoc

  become_user-Opens :
      (r : Round) (pwd : Passwd) (log out : Log Call)
      → become_user sys r pwd log ≡ (replaced, out)
      → Opens pwd out
  unfolding become_user
  become_user-Opens r pwd log out h = elim (Bool-cases r.exec_fails) [
    | inl t ↦ absurd (ground arith)
    | inr t ↦ (
      log,
      sym (ap (λ (p : Step (Unit {0}) × Log Call). p.1) (rw t at h)) ∙ regroup log _ _ _ _ _ _,
    )
  ]

  start_shell-Opens :
      (r : Round) (pwd : Passwd) (log out : Log Call)
      → start_shell sys r pwd log ≡ (replaced, out)
      → Opens pwd out
  unfolding start_shell
  start_shell-Opens r pwd log out h =
      elim (bind_replaced (log_login sys r pwd) (λ _. become_user sys r pwd) log out h) [
        | inl e ↦ absurd (log_login-ne-replaced r pwd log out e)
        | inr (u, e, g) ↦ become_user-Opens r pwd (log_login sys r pwd log).1 out g
      ]

  after_fork-Opens :
      (r : Round) (pwd : Passwd) (log out : Log Call)
      → after_fork sys r pwd log ≡ (replaced, out)
      → Opens pwd out
  unfolding after_fork
  after_fork-Opens r pwd log out h = elim (Bool-cases (r.child ==ℤ negsuc 0)) [
    | inl f ↦ absurd (ground arith)
    | inr f ↦ elim (Bool-cases (r.child ==ℤ pos 0)) [
      | inl c ↦ start_shell-Opens r pwd log out (rw (f, c) at h)
      | inr c ↦ absurd (ground arith)
    ]
  ]

  welcome-ne-replaced : (r : Round) (log out : Log Call) → welcome sys r log ≡ (replaced, out) → ⊥
  unfolding welcome print_whole_file
  welcome-ne-replaced r log out h = elim (Option-cases r.motd) [
    | inl e ↦ ground arith
    | inr (text, e) ↦ ground arith
  ]

  pub admit-Opens :
      (r : Round) (pwd : Passwd) (log out : Log Call)
      → admit sys r pwd log ≡ (replaced, out)
      → Opens pwd out
  unfolding admit
  admit-Opens r pwd log out h =
      elim (bind_replaced (welcome sys r) (λ _. after_fork sys r pwd) log out h) [
        | inl e ↦ absurd (welcome-ne-replaced r log out e)
        | inr (u, e, g) ↦ after_fork-Opens r pwd (welcome sys r log).1 out g
      ]
