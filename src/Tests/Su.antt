-- ===== src/Tests/Su.antt =====
-- A command that src/su.c runs as root, and a user whose further arguments it drops.
use util_ironclad.Base.{◌≡◌, true, false, some, [], ◌∷◌, ◌++◌, refl}
use util_ironclad.Libc.Text.{Bytes, codes, str_eq}
use util_ironclad.Run.{call}
use util_ironclad.Su.{Passwd, System, execvp, main}
use util_ironclad.Su.Laws.{outcome, asked, su_command, su_user}

abbrev root : Passwd
root = record { pw_uid = 0; pw_dir = b'/' ∷ []; pw_shell = b's' ∷ b'h' ∷ [] }

abbrev sys : System
sys = record {
  passwd = λ name log. some root;
  has_memory = λ count log. true;
  exec_fails = λ path argv log. false;
}

abbrev word : Bytes
word = b'l' ∷ b's' ∷ []

command_example : main sys [] (codes "-c" ∷ word ∷ []) [] ≡ (
  outcome (sys.exec_fails root.pw_shell (root.pw_shell ∷ codes "-c" ∷ word ∷ []) (asked root)),
  asked root ++ (call (execvp root.pw_shell (root.pw_shell ∷ codes "-c" ∷ word ∷ [])) ∷ []),
)
command_example = su_command sys [] (word ∷ []) root refl refl

not_an_option : str_eq word (codes "-c") ≡ false
unfolding str_eq codes
not_an_option = refl

not_a_dash : str_eq word (codes "-") ≡ false
unfolding str_eq codes
not_a_dash = refl

user_example : main sys [] (word ∷ codes "-c" ∷ []) [] ≡ main sys [] (word ∷ []) []
user_example = su_user sys [] word (codes "-c" ∷ []) [] not_an_option not_a_dash
