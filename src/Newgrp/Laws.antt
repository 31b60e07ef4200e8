-- ===== src/Newgrp/Laws.antt =====
-- With which group src/newgrp.c starts a shell.
use util_ironclad.Base.{
  ℕ, ℤ, pos, false, some, List, [], ◌∷◌, ◌≡◌, refl, arith, Bool-cases, Option-cases, inl, inr,
}
use util_ironclad.Libc.Text.{Bytes, codes, scan_int}
use util_ironclad.Libc.Getopt.{Opts, done, opt, bad, getopt}
use util_ironclad.Libc.Getopt.Laws.{operands_of}
use util_ironclad.Run.{Log, call, exit, replaced, while_getopt, ◌>>=◌}
use util_ironclad.Newgrp.{
  Call, setgid, getuid, getpwuid, execl, System, start_shell, find_user, after_setgid, change,
  on_opt, on_bad, main,
}

-- The events of a run that changes to the group and starts the shell of the user.
abbrev pub started : ℤ → ℤ → Bytes → Log Call
started gid uid shell =
    call (setgid gid) ∷ call getuid ∷ call (getpwuid uid) ∷ call (execl shell) ∷ []

module _ (sys : System) where
  started_by :
      (gid : ℤ) (out : Log Call)
      → after_setgid sys (sys.setgid_fails gid []) (call (setgid gid) ∷ []) ≡ (replaced, out)
      → (shell : Bytes) × (sys.setgid_fails gid [] ≡ false)
        × (sys.pw_shell (sys.uid (call (setgid gid) ∷ [])) (call (setgid gid) ∷ call getuid ∷ [])
            ≡ some shell)
        × (out ≡ started gid (sys.uid (call (setgid gid) ∷ [])) shell)
  unfolding after_setgid find_user start_shell
  started_by gid out h =
      let user : ℤ = sys.uid (call (setgid gid) ∷ []) in
      elim (Bool-cases (sys.setgid_fails gid [])) [
        | inl e ↦ absurd (ground arith)
        | inr e ↦ elim (Option-cases (sys.pw_shell user (call (setgid gid) ∷ call getuid ∷ []))) [
          | inl f ↦ absurd (ground arith)
          | inr (shell, f) ↦ (shell, e, f, opens shell e f)
        ]
      ]
    where
      opens :
          (shell : Bytes)
          → sys.setgid_fails gid [] ≡ false
          → sys.pw_shell (sys.uid (call (setgid gid) ∷ [])) (call (setgid gid) ∷ call getuid ∷ [])
            ≡ some shell
          → out ≡ started gid (sys.uid (call (setgid gid) ∷ [])) shell
      opens shell e f = ground arith

  changed :
      (words : List Bytes) (out : Log Call)
      → change sys words [] ≡ (replaced, out)
      → (group : Bytes) × (rest : List Bytes) × (gid : ℤ) × (shell : Bytes) × (words ≡ group ∷ rest)
        × (scan_int group ≡ some gid)
        × (sys.setgid_fails gid [] ≡ false)
        × (sys.pw_shell (sys.uid (call (setgid gid) ∷ [])) (call (setgid gid) ∷ call getuid ∷ [])
            ≡ some shell)
        × (out ≡ started gid (sys.uid (call (setgid gid) ∷ [])) shell)
  unfolding change
  changed [] out h = absurd (ground arith)
  changed (group ∷ rest) out h = elim (Option-cases (scan_int group)) [
    | inl e ↦ absurd (ground arith)
    | inr (gid, e) ↦
        let (shell, granted, listed, ran) = started_by gid out (ground arith) in
        (group, rest, gid, shell, refl, e, granted, listed, ran)
  ]

  -- Both options end the run with status 0.
  on_opt_ends :
      (package_version : Bytes) (c : ℕ) (arg : Bytes)
      → (on_opt package_version c arg tt []).0 ≡ exit (pos 0)
  unfolding on_opt
  on_opt_ends package_version c arg = ground arith

  after_options :
      (package_version : Bytes) (o : Opts) (out : Log Call)
      → (while_getopt (on_opt package_version) on_bad o tt >>= (λ p. change sys p.1)) []
        ≡ (replaced, out)
      → change sys (operands_of o) [] ≡ (replaced, out)
  unfolding while_getopt operands_of on_bad
  after_options package_version (done rest) out h = h
  after_options package_version (opt c arg rest more) out h =
      absurd (ground (arith, on_opt_ends package_version c arg))
  after_options package_version (bad c rest more) out h = h

  -- Whatever the arguments are, a shell is started only after the first one behind the options, or at an
  -- option that is refused, was read as a number and `setgid` with that number succeeded; it is the shell
  -- of the entry of the current user, and no other call is made.
  pub newgrp_group :
      (package_version : Bytes) (args : List Bytes) (out : Log Call)
      → main sys package_version args [] ≡ (replaced, out)
      → (group : Bytes) × (rest : List Bytes) × (gid : ℤ) × (shell : Bytes) × (operands_of
            (getopt (codes "hv") args)
          ≡ group ∷ rest)
        × (scan_int group ≡ some gid)
        × (sys.setgid_fails gid [] ≡ false)
        × (sys.pw_shell (sys.uid (call (setgid gid) ∷ [])) (call (setgid gid) ∷ call getuid ∷ [])
            ≡ some shell)
        × (out ≡ started gid (sys.uid (call (setgid gid) ∷ [])) shell)
  unfolding main
  newgrp_group package_version args out h =
      let o : Opts = getopt (codes "hv") args in
      changed (operands_of o) out (after_options package_version o out h)
