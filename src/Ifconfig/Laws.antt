-- ===== src/Ifconfig/Laws.antt =====
-- Which interface src/ifconfig.c blocks, and what it lists.
use util_ironclad.Base.{
  ℕ, ◌≤◌, pos, negsuc, Bool, true, false, some, List, [], ◌∷◌, ◌++◌, ◌||◌, ◌≡◌, refl, arith, map,
  ◌∙◌, length, take,
}
use util_ironclad.Libc.Text.{Bytes, codes}
use util_ironclad.Libc.Getopt.{getopt}
use util_ironclad.Libc.Format.{snprintf}
use util_ironclad.Run.{Log, next, exit, call, stdout, stderr, stop, while_getopt, bind_next}
use util_ironclad.Run.Arrays.{print_array-take}
use util_ironclad.Ifconfig.{
  NetInterface, Settings, defaults, Call, open_interface, config_netinter, listnetinter, System,
  interface_text, on_opt, on_bad, configure, set_blocked, show_listed, show_all, run, main,
}

-- An option that names an interface.
pub data Request : Type 0 where
  block unblock : Bytes → Request

unfoldable pub args_of : List Request → List Bytes
args_of [] = []
args_of (block name ∷ rs) = codes "-b" ∷ name ∷ args_of rs
args_of (unblock name ∷ rs) = codes "-u" ∷ name ∷ args_of rs

unfoldable pub name_of : Request → Bytes
name_of (block name) = name
name_of (unblock name) = name

unfoldable pub is_block : Request → Bool
is_block (block name) = true
is_block (unblock name) = false

unfoldable pub any_block : List Request → Bool
any_block [] = false
any_block (r ∷ rs) = is_block r || any_block rs

abbrev after : Settings → Request → Settings
after s (block name) = record s { do_block = true; blocked = some name }
after s (unblock name) = record s { do_unblock = true; blocked = some name }

abbrev after_all : Settings → List Request → Settings
after_all s [] = s
after_all s (r ∷ rs) = after_all (after s r) rs

options_lem :
    (package_version : Bytes) (rs : List Request) (s : Settings) (log : Log Call)
    → while_getopt (on_opt package_version) on_bad (getopt (codes "hb:u:v") (args_of rs)) s log
      ≡ (next (after_all s rs, []), log)
unfolding while_getopt getopt codes on_opt args_of
options_lem package_version [] s log = refl
options_lem package_version (block name ∷ rs) s log = options_lem package_version rs _ log
options_lem package_version (unblock name ∷ rs) s log = options_lem package_version rs _ log

after_all-blocked :
    (rs : List Request) (r : Request) (s : Settings)
    → (after_all s (rs ++ (r ∷ []))).blocked ≡ some (name_of r)
unfolding name_of
after_all-blocked [] (block name) s = refl
after_all-blocked [] (unblock name) s = refl
after_all-blocked (q ∷ rs) r s = after_all-blocked rs r (after s q)

after_all-do_block :
    (rs : List Request) (s : Settings) → (after_all s rs).do_block ≡ (s.do_block || any_block rs)
unfolding any_block is_block
after_all-do_block [] s = ground arith
after_all-do_block (block name ∷ rs) s =
    ground (arith, after_all-do_block rs (after s (block name)))
after_all-do_block (unblock name ∷ rs) s =
    ground (arith, after_all-do_block rs (after s (unblock name)))

after_all-asked :
    (rs : List Request) (r : Request) (s : Settings)
    → ((after_all s (rs ++ (r ∷ []))).do_block || (after_all s (rs ++ (r ∷ []))).do_unblock) ≡ true
after_all-asked [] (block name) s = refl
after_all-asked [] (unblock name) s = ground arith
after_all-asked (q ∷ rs) r s = after_all-asked rs r (after s q)

module _ (sys : System) (package_version : Bytes) where
  configure_lem :
      (blocks : Bool) (name : Bytes)
      → configure sys blocks name [] ≡ (
          let path = snprintf 64 (codes "/dev/" ++ name) in
          let opened = call (open_interface path) ∷ [] in
          elim (sys.fd path []) [
            | negsuc n ↦ (
              exit (pos 1),
              opened
                  ++ (stderr
                        (codes "ifconfig: could not open " ++ (path ++ codes " for blocking\n"))
                      ∷ []),
            )
            | pos fd ↦ (
              exit (sys.errno (pos fd) blocks opened),
              opened ++ (call (config_netinter (pos fd) blocks) ∷ []),
            )
          ])
  unfolding configure set_blocked
  configure_lem blocks name = ground arith

  -- For arguments that are options -b and -u with a name each: the last one names the interface, and its
  -- device, a path of at most 63 bytes, is opened. Where that fails the run ends with a message and
  -- status 1. The device is else asked to block the interface if any of the options is -b, and to unblock
  -- it if none is, and the status is `errno`. So after -b for one interface, -u for another one blocks
  -- that one.
  pub ifconfig_requests :
      (rs : List Request) (r : Request)
      → main sys package_version (args_of (rs ++ (r ∷ []))) [] ≡ (
          let path = snprintf 64 (codes "/dev/" ++ name_of r) in
          let blocks = any_block (rs ++ (r ∷ [])) in
          let opened = call (open_interface path) ∷ [] in
          elim (sys.fd path []) [
            | negsuc n ↦ (
              exit (pos 1),
              opened
                  ++ (stderr
                        (codes "ifconfig: could not open " ++ (path ++ codes " for blocking\n"))
                      ∷ []),
            )
            | pos fd ↦ (
              exit (sys.errno (pos fd) blocks opened),
              opened ++ (call (config_netinter (pos fd) blocks) ∷ []),
            )
          ])
  unfolding main run
  ifconfig_requests rs r =
      let all : List Request = rs ++ (r ∷ []) in
      bind_next {C = Call} {A = Settings × List Bytes} {B = Unit {0}}
        (while_getopt (on_opt package_version) on_bad (getopt (codes "hb:u:v") (args_of all))
          defaults)
        (λ p. run sys p.0) {log = []} {log' = []} (options_lem package_version all defaults [])
      ∙ rw
          (
            run,
            after_all-asked rs r defaults,
            after_all-blocked rs r defaults,
            after_all-do_block all defaults,
          )
          (configure_lem (any_block all) (name_of r))

  -- With no argument, the interfaces that the kernel reports are printed in their order, as many as it
  -- says, if it wrote that many; the status is 0.
  pub ifconfig_list :
      (n : ℕ) (buffer : List NetInterface)
      → sys.list [] ≡ (pos n, buffer)
      → n ≤ length buffer
      → main sys package_version [] [] ≡ (
        exit (pos 0),
        call (listnetinter 10) ∷ map (λ i. stdout (interface_text i)) (take n buffer),
      )
  unfolding main run while_getopt getopt show_all show_listed
  ifconfig_list n buffer listed h =
      bind_next {C = Call} {A = Unit {0}} {B = Unit {0}} (show_all sys) (λ _. stop (pos 0))
        {log = []}
        {log' = call (listnetinter 10) ∷ map (λ i. stdout (interface_text i)) (take n buffer)}
        {a = tt}
        (rw listed (print_array-take interface_text n buffer (call (listnetinter 10) ∷ []) h))
