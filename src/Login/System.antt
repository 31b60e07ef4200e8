-- ===== src/Login/System.antt =====
-- What src/login.c is given from outside.
use util_ironclad.Base.{ℕ, ℤ, Bool, Option}
use util_ironclad.Libc.Text.{Bytes}

-- `struct passwd` of <pwd.h>
pub record Passwd : Type 0 where
  pub pw_name : Bytes
  pub pw_passwd : Bytes
  pub pw_uid : ℕ
  pub pw_gid : ℕ
  pub pw_dir : Bytes
  pub pw_shell : Bytes

-- The calls of the system. `echo` is `tcsetattr` with the echo off or as it was before; `pututxline` has
-- the fields `ut_user`, `ut_pid` and `ut_line` of its entry.
pub data Call : Type 0 where
  open_file : Bytes → Call
  write_tty : Bytes → Call
  fgets scanf getpid fork gettimeofday endutxent setutxent : Call
  echo : Bool → Call
  getpwnam : Bytes → Call
  pututxline : Bytes → ℤ → Bytes → Call
  setuid setgid : ℕ → Call
  setenv : Bytes → Bytes → Call
  chdir : Bytes → Call
  execl : Bytes → Call
  waitpid : ℤ → Call

-- What stays the same: `crypt(key, salt)`, which may return a null pointer, and the sizes of the arrays
-- of `struct utmpx`.
pub record System : Type 0 where
  pub crypt : Bytes → Bytes → Option Bytes
  pub ut_user_size : ℕ
  pub ut_line_size : ℕ

-- What one round of the loop is given: the text of the line that `fgets` stores and the word that is typed, if the input has not ended;
-- the table of users; the text of /etc/motd, if it opens; what the calls return.
pub record Round : Type 0 where
  pub line : Option Bytes
  pub passwd : Bytes → Option Passwd
  pub word : Option Bytes
  pub motd : Option Bytes
  pub pid : ℤ
  pub child : ℤ
  pub tty : Option Bytes
  pub is_logged : Bool
  pub exec_fails : Bool
