-- ===== src/Login/Main.antt =====
-- src/login.c: `print_whole_file` and `main`.
use util_ironclad.Base.{
  ℕ, ◌+◌, ◌*◌, pos, negsuc, Bool, true, false, Option, none, some, List, [], ◌∷◌, ◌==◌, ◌==ℤ◌, ltb,
  if◌then◌else◌, length,
}
use util_ironclad.Libc.Text.{Bytes, codes, str_eq}
use util_ironclad.Run.{
  Run, stdout, perror, call, return, stop, exec_done, undefined, put, puts, when, fail, ◌>>=◌, ◌>>◌,
}
use util_ironclad.Login.System.{
  Passwd, Call, open_file, write_tty, fgets, scanf, getpid, fork, gettimeofday, endutxent,
  setutxent, echo, getpwnam, pututxline, setuid, setgid, setenv, chdir, execl, waitpid, System,
  Round,
}

-- The text of the file, if it opens.
unfoldable pub print_whole_file : Bytes → Option Bytes → Run Call (Unit {0})
print_whole_file path none = put (call (open_file path))
print_whole_file path (some contents) = do
  put (call (open_file path))
  put (call (write_tty contents))
  puts ([] ∷ [])

-- `user[strcspn(user, "\n")] = '\0'`
unfoldable pub cut_line : Bytes → Bytes
cut_line [] = []
cut_line (c ∷ s) = let rest = c ∷ cut_line s in if c == 10 then [] else rest

-- `fgets` leaves `user` as it is where the input has ended.
unfoldable pub stored : Option Bytes → Option Bytes → Option Bytes
stored typed user = elim typed [ none ↦ user | some text ↦ some text ]

-- The prompt; `user` is `none` before anything was stored in it.
unfoldable pub read_name : Round → Option Bytes → Run Call Bytes
read_name r user = do
  put (stdout (codes "username: "))
  put (call fgets)
  elim (stored r.line user) [ none ↦ undefined | some text ↦ return (cut_line text) ]

abbrev pub user_len : ℕ
user_len = 64

module _ (sys : System) where
  -- The password, which `scanf` stores over the name in `user[USER_LEN + 1]`.
  unfoldable pub read_word : Round → Bytes → Run Call Bytes
  read_word r name = elim r.word [
    | none ↦ return name
    | some word ↦ if ltb (length word) (user_len + 1) then return word else undefined
  ]

  unfoldable pub compare_hash : Passwd → Bytes → Run Call Bool
  compare_hash pwd key = elim (sys.crypt key (codes "GL")) [
    | none ↦ undefined
    | some requested ↦
        if str_eq pwd.pw_passwd requested
        then return true
        else (puts (codes "login: password did not match!" ∷ []) >> return false)
  ]

  -- After the password is read.
  unfoldable pub judge : Passwd → Bytes → Run Call (Bytes × Bool)
  judge pwd key = do put (call (echo true)); matches ← compare_hash pwd key; return (key, matches)

  unfoldable pub test_word : Round → Passwd → Bytes → Run Call (Bytes × Bool)
  test_word r pwd name = read_word r name >>= judge pwd

  unfoldable pub ask_password : Round → Passwd → Bytes → Run Call (Bytes × Bool)
  ask_password r pwd name = do
    put (stdout (codes "password (no echo): "))
    put (call (echo false))
    put (call scanf)
    test_word r pwd name

  -- The tests of the password: what is in `user` after them, and whether the user is let in.
  unfoldable pub check : Round → Passwd → Bytes → Run Call (Bytes × Bool)
  check r pwd name =
      if str_eq pwd.pw_passwd []
      then return (name, true)
      else if length pwd.pw_passwd == 64 * 2
      then ask_password r pwd name
      else (puts (codes "login: user entry is invalid" ∷ []) >> return (name, false))

  -- The entry of the login, with the copies of `pw_name` and `tty` into its arrays.
  unfoldable pub log_login : Round → Passwd → Run Call (Unit {0})
  log_login r pwd = do
    when (if ltb (length pwd.pw_name) sys.ut_user_size then false else true) undefined
    put (call gettimeofday)
    elim r.tty [
      | none ↦ undefined
      | some tty ↦ do
        when (if ltb (length tty) sys.ut_line_size then false else true) undefined
        put (call setutxent)
        put (call (pututxline pwd.pw_name r.pid tty))
        when (if r.is_logged then false else true)
            (put (perror (codes "login: could not log login")))
        put (call endutxent)
    ]

  -- The child after its entry is written, which looks at no result of the calls before `execl`.
  unfoldable pub become_user : Round → Passwd → Run Call (Unit {0})
  become_user r pwd = do
    put (call (setuid pwd.pw_uid))
    put (call (setgid pwd.pw_gid))
    put (call (setenv (codes "HOME") pwd.pw_dir))
    put (call (setenv (codes "LOGNAME") pwd.pw_name))
    put (call (chdir pwd.pw_dir))
    put (call (execl pwd.pw_shell))
    (if r.exec_fails then stop (pos 1) else exec_done)

  unfoldable pub start_shell : Round → Passwd → Run Call (Unit {0})
  start_shell r pwd = do log_login r pwd; become_user r pwd

  -- After `fork`, in the child and in the parent.
  unfoldable pub after_fork : Round → Passwd → Run Call (Unit {0})
  after_fork r pwd =
      if r.child ==ℤ negsuc 0
      then fail (codes "login: could not fork")
      else if r.child ==ℤ pos 0
      then start_shell r pwd
      else put (call (waitpid r.child))

  -- From the message of the day up to `fork`.
  unfoldable pub welcome : Round → Run Call (Unit {0})
  welcome r = do
    puts ([] ∷ [])
    print_whole_file (codes "/etc/motd") r.motd
    put (call getpid)
    put (call fork)

  unfoldable pub admit : Round → Passwd → Run Call (Unit {0})
  admit r pwd = do welcome r; after_fork r pwd

  -- After the tests of the password.
  unfoldable pub enter : Round → Passwd → Bytes × Bool → Run Call Bytes
  enter r pwd (key, true) = do admit r pwd; return key
  enter r pwd (key, false) = return key

  unfoldable pub look_up : Round → Bytes → Run Call Bytes
  look_up r name = do
    put (call (getpwnam name))
    elim (r.passwd name) [
      | none ↦ puts (codes "login: did not find login name" ∷ []) >> return name
      | some pwd ↦ check r pwd name >>= enter r pwd
    ]

  -- After the prompt.
  unfoldable pub serve : Round → Bytes → Run Call Bytes
  serve r name = if length name == 0 then return name else look_up r name

  -- One round of `while (1)`: what is in `user` after it.
  unfoldable pub round : Round → Option Bytes → Run Call Bytes
  round r user = do name ← read_name r user; serve r name

  -- The loop, for as many rounds as are given.
  unfoldable pub sessions : List Round → Option Bytes → Run Call (Option Bytes)
  sessions [] user = return user
  sessions (r ∷ rounds) user = do text ← round r user; sessions rounds (some text)

  -- `issue` is the text of /etc/issue, if it opens.
  unfoldable pub main : Option Bytes → List Round → Run Call (Option Bytes)
  main issue rounds = do print_whole_file (codes "/etc/issue") issue; sessions rounds none
