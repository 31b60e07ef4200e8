-- ===== src/Su/Laws.antt =====
-- What src/su.c runs, and as whom.
use util_ironclad.Base.{
  ℕ, zero, suc, ◌+◌, pos, Bool, true, false, some, List, [], ◌∷◌, ◌++◌, ◌≡◌, refl, ap, ◌∙◌, sym,
  subst, arith, Bool-cases, inl, inr, if◌then◌else◌, length, length-append, append_assoc, replicate,
}
use util_ironclad.Libc.Text.{Bytes, codes, str_eq}
use util_ironclad.Run.{bind_first, bind_next, Log, Step, exit, replaced, call}
use util_ironclad.Su.{
  Settings, defaults, Passwd, Call, getpwnam, setuid, seteuid, execvp, System, read_args, Slot,
  garbage, null, copy, store, copy_command, new_argvp, read_argv, argv_of, execute, allocate,
  run_copy, run_command, become, switch_user, main,
}

abbrev copies : List Bytes → List Slot
copies [] = []
copies (t ∷ texts) = copy t ∷ copies texts

store_behind :
    (before after : List Slot) (s v : Slot)
    → store (before ++ (s ∷ after)) (length before) v ≡ some (before ++ (v ∷ after))
unfolding store
store_behind [] after s v = refl
store_behind (b ∷ before) after s v = rw (store_behind before after s v) refl

copy_command_lem :
    (before : List Slot) (command : List Bytes) (spare : List Slot)
    → copy_command (before ++ (replicate (length command) garbage ++ spare)) (length before) command
      ≡ some (before ++ (copies command ++ spare))
unfolding copy_command
copy_command_lem before [] spare = refl
copy_command_lem before (w ∷ command) spare =
    rw
      (
        copy_command,
        store_behind before (replicate (length command) garbage ++ spare) garbage (copy w),
      )
      (subst
        (λ n.
          copy_command (before ++ (copy w ∷ (replicate (length command) garbage ++ spare))) n
            command
          ≡ some (before ++ (copy w ∷ (copies command ++ spare))))
        (length-append before (copy w ∷ []) ∙ omega arith)
        (sym (
            ap (λ l. copy_command l (length (before ++ (copy w ∷ []))) command)
              (append_assoc before (copy w ∷ []) (replicate (length command) garbage ++ spare)))
          ∙ copy_command_lem (before ++ (copy w ∷ [])) command spare
          ∙ ap some (append_assoc before (copy w ∷ []) (copies command ++ spare))))

read_copies : (texts : List Bytes) → read_argv (copies texts ++ (null ∷ [])) ≡ some texts
unfolding read_argv
read_copies [] = refl
read_copies (t ∷ texts) = rw (read_copies texts) refl

length-copies : (texts : List Bytes) → length (copies texts) ≡ length texts
length-copies [] = refl
length-copies (t ∷ texts) = ap suc (length-copies texts)

spare_slot : (n : ℕ) → replicate (suc n) garbage ≡ replicate n garbage ++ (garbage ∷ [])
spare_slot zero = refl
spare_slot (suc n) = ap (λ l. garbage ∷ l) (spare_slot n)

array_of : (n : ℕ) → replicate (n + 3) garbage ≡ garbage ∷ garbage ∷ replicate (suc n) garbage
array_of n =
    let three : n + 3 ≡ suc (suc (suc n)) = omega arith in ap (λ k. replicate k garbage) three

last_slot :
    (before : List Slot) (command : List Bytes)
    → store (before ++ (copies command ++ (garbage ∷ []))) (length command + length before) null
      ≡ some (before ++ (copies command ++ (null ∷ [])))
last_slot before command =
    rw
      (
        sym (append_assoc before (copies command) (garbage ∷ [])),
        sym (append_assoc before (copies command) (null ∷ [])),
      )
      (subst
        (λ k.
          store ((before ++ copies command) ++ (garbage ∷ [])) k null
          ≡ some ((before ++ copies command) ++ (null ∷ [])))
        (length-append before (copies command) ∙ omega (arith, length-copies command))
        (store_behind (before ++ copies command) [] garbage null))

filled :
    (pw_shell : Bytes) (command : List Bytes)
    → new_argvp pw_shell command
      ≡ some (copy pw_shell ∷ copy (codes "-c") ∷ (copies command ++ (null ∷ [])))
unfolding new_argvp store
filled pw_shell command =
    let head : List Slot = copy pw_shell ∷ copy (codes "-c") ∷ [] in
    let copied : copy_command (head ++ replicate (suc (length command)) garbage) 2 command
        ≡ some (head ++ (copies command ++ (garbage ∷ []))) =
      ap (λ l. copy_command (head ++ l) 2 command) (spare_slot (length command))
      ∙ copy_command_lem head command (garbage ∷ []) in
    rw (new_argvp, array_of (length command), copied) (last_slot head command)

-- The array has room for every write of su.c, and `execvp` reads from it the shell, the option -c and
-- every argument of the command.
pub argv_of_lem :
    (pw_shell : Bytes) (command : List Bytes)
    → argv_of pw_shell command ≡ some (pw_shell ∷ codes "-c" ∷ command)
unfolding argv_of read_argv
argv_of_lem pw_shell command =
    rw (argv_of, filled pw_shell command, read_argv, read_copies command) refl

-- The outcome of executing a program: it is replaced, or `execvp` failed and the status is 1.
abbrev pub outcome : Bool → Step (Unit {0})
outcome failed = if failed then exit (pos 1) else replaced

abbrev pub asked : Passwd → Log Call
asked pwd =
    call (getpwnam (codes "root")) ∷ call (setuid pwd.pw_uid) ∷ call (seteuid pwd.pw_uid) ∷ []

module _ (sys : System) (package_version : Bytes) where
  run_command_lem :
      (pwd : Passwd) (command : List Bytes) (log : Log Call)
      → sys.has_memory (length command + 3) log ≡ true
      → let argv = pwd.pw_shell ∷ codes "-c" ∷ command in
        run_command sys pwd command log ≡ (
          outcome (sys.exec_fails pwd.pw_shell argv log),
          log ++ (call (execvp pwd.pw_shell argv) ∷ []),
        )
  unfolding run_command allocate run_copy execute
  run_command_lem pwd command log memory =
      let argv = pwd.pw_shell ∷ codes "-c" ∷ command in
      bind_next {C = Call} {A = Unit {0}} {B = Unit {0}} (allocate sys (length command + 3))
        (λ _. run_copy sys pwd command) {log = log} {log' = log} {a = tt} (ground arith)
      ∙ rw (run_copy, argv_of_lem pwd.pw_shell command)
          (elim (Bool-cases (sys.exec_fails pwd.pw_shell argv log)) [
            | inl e ↦ rw (execute, e) refl
            | inr e ↦ rw (execute, e) refl
          ])

  -- With the option -c first, src/su.c runs the shell of root with -c and all that follows, after the
  -- identity is changed and without a password, if root is listed and the array can be allocated.
  pub su_command :
      (command : List Bytes) (pwd : Passwd)
      → sys.passwd (codes "root") [] ≡ some pwd
      → sys.has_memory (length command + 3) (asked pwd) ≡ true
      → let argv = pwd.pw_shell ∷ codes "-c" ∷ command in
        main sys package_version (codes "-c" ∷ command) [] ≡ (
          outcome (sys.exec_fails pwd.pw_shell argv (asked pwd)),
          asked pwd ++ (call (execvp pwd.pw_shell argv) ∷ []),
        )
  unfolding main read_args switch_user become run_command execute str_eq codes
  su_command command pwd listed memory =
      rw (main, switch_user, read_args, listed) (run_command_lem pwd command (asked pwd) memory)

  -- After a first argument other than - and -c, src/su.c looks at no further one: after a name of a user it
  -- ignores an option -c.
  pub su_user :
      (user : Bytes) (args : List Bytes) (log : Log Call)
      → str_eq user (codes "-c") ≡ false
      → str_eq user (codes "-") ≡ false
      → main sys package_version (user ∷ args) log ≡ main sys package_version (user ∷ []) log
  unfolding main read_args
  su_user user args log not_command not_login =
      let same : read_args package_version (user ∷ args) defaults log
          ≡ read_args package_version (user ∷ []) defaults log =
        ground arith in
      bind_first {C = Call} {A = Settings} {B = Unit {0}}
        (read_args package_version (user ∷ args) defaults)
        (read_args package_version (user ∷ []) defaults) (switch_user sys) log same
