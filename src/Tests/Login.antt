-- ===== src/Tests/Login.antt =====
-- Two rounds of src/login.c: an unknown name, and then a user with no password.
use util_ironclad.Base.{
  pos, true, false, none, some, [], ◌∷◌, ◌++◌, ◌≡◌, inl, refl, arith, if◌then◌else◌,
}
use util_ironclad.Libc.Text.{Bytes, str_eq}
use util_ironclad.Run.{Log, replaced}
use util_ironclad.Login.System.{Passwd, System, Round, Call}
use util_ironclad.Login.Main.{cut_line, main}
use util_ironclad.Login.Laws.{Admitted, login_admits}
use util_ironclad.Login.Conditions.{IsNamed, IsReady, Refused, unknown}
use util_ironclad.Login.Success.{login_opens}

abbrev sys : System
sys = record { crypt = λ key salt. some key; ut_user_size = 32; ut_line_size = 32 }

abbrev ann : Bytes
ann = b'a' ∷ b'n' ∷ b'n' ∷ []

abbrev bob : Bytes
bob = b'b' ∷ b'o' ∷ b'b' ∷ []

abbrev entry : Passwd
entry = record {
  pw_name = ann;
  pw_passwd = [];
  pw_uid = 1000;
  pw_gid = 1000;
  pw_dir = b'/' ∷ [];
  pw_shell = b's' ∷ b'h' ∷ [];
}

abbrev round_of : Bytes → Round
round_of name = record {
  line = some (name ++ (10 ∷ []));
  passwd = λ n. if str_eq n ann then some entry else none;
  word = none;
  motd = none;
  pid = pos 1;
  child = pos 0;
  tty = some (b't' ∷ []);
  is_logged = true;
  exec_fails = false;
}

bob-Refused : Refused sys (round_of bob)
unfolding cut_line str_eq
bob-Refused = unknown (bob ++ (10 ∷ [])) refl refl

ann-IsNamed : IsNamed (round_of ann) (ann ++ (10 ∷ [])) entry
unfolding cut_line str_eq
ann-IsNamed = record { typed = refl; not_empty = refl; listed = refl }

ann-IsReady : IsReady sys (round_of ann) entry (b't' ∷ [])
ann-IsReady = record {
  is_child = refl;
  tty_known = refl;
  name_fits = omega arith;
  tty_fits = omega arith;
  executes = refl;
}

opens_example : (main sys none (round_of bob ∷ round_of ann ∷ []) []).0 ≡ replaced
opens_example =
    login_opens sys none (round_of bob ∷ []) [] (round_of ann) (ann ++ (10 ∷ [])) entry (b't' ∷ [])
      [] (bob-Refused, tt) ann-IsNamed (inl refl) ann-IsReady

abbrev ended : Log Call
ended = (main sys none (round_of bob ∷ round_of ann ∷ []) []).1

ended_replaced : main sys none (round_of bob ∷ round_of ann ∷ []) [] ≡ (replaced, ended)
ended_replaced = λ i. (opens_example i, ended)

admits_example : Admitted sys (round_of bob ∷ round_of ann ∷ []) ended
admits_example = login_admits sys none (round_of bob ∷ round_of ann ∷ []) [] ended ended_replaced
