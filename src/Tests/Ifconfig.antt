-- ===== src/Tests/Ifconfig.antt =====
-- Two interfaces that src/ifconfig.c is asked to block and to unblock.
use util_ironclad.Base.{pos, [], ◌∷◌, ◌++◌, ◌≡◌, refl}
use util_ironclad.Libc.Text.{codes}
use util_ironclad.Libc.Format.{snprintf}
use util_ironclad.Run.{exit, call}
use util_ironclad.Ifconfig.{System, open_interface, config_netinter, main}
use util_ironclad.Ifconfig.Laws.{
  Request, block, unblock, args_of, any_block, name_of, ifconfig_requests,
}

abbrev sys : System
sys = record {
  fd = λ path log. pos 3;
  errno = λ fd actually_block log. pos 0;
  list = λ log. (pos 0, []);
}

abbrev first : Request
first = block (b'a' ∷ [])

abbrev second : Request
second = unblock (b'b' ∷ [])

device : snprintf 64 (codes "/dev/" ++ name_of second) ≡ codes "/dev/b"
unfolding codes name_of
device = refl

requests_example : main sys [] (args_of ((first ∷ []) ++ (second ∷ []))) [] ≡ (
  exit (pos 0),
  call (open_interface (snprintf 64 (codes "/dev/" ++ name_of second)))
      ∷ call (config_netinter (pos 3) (any_block ((first ∷ []) ++ (second ∷ []))))
      ∷ [],
)
requests_example = ifconfig_requests sys [] (first ∷ []) second
