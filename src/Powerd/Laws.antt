-- ===== src/Powerd/Laws.antt =====
-- Which commands src/powerd.c runs.
use util_ironclad.Base.{
  ℤ, negsuc, pos, Bool, true, false, none, some, List, [], ◌∷◌, ◌++◌, ◌==ℤ◌, ◌≡◌, refl, arith,
  if◌then◌else◌, map, append_assoc, append-nil, ◌∙◌, ap,
}
use util_ironclad.Libc.Text.{Bytes, codes}
use util_ironclad.Libc.Getopt.{getopt}
use util_ironclad.Run.{Log, next, fault, call, while_getopt, bind_next}
use util_ironclad.Powerd.{
  count, Call, open_device, daemon, poll, system, System, Round, shutdown_cmd, sleep_cmd, fill, act,
  given, act_all, watch, run, main,
}

-- What one round does where the power button and the sleep button are pressed or not.
abbrev pub pressed : Bool × Bool → Log Call
pressed (power, sleep) =
    call (poll 2)
    ∷ ((if power then call (system (codes "shutdown -p now")) ∷ [] else [])
        ++ (if sleep then call (system (codes "shutdown -r now")) ∷ [] else []))

abbrev pub presses : List (Bool × Bool) → Log Call
presses [] = []
presses (p ∷ ps) = pressed p ++ presses ps

abbrev pub opened : Log Call
opened =
    call (open_device (codes "/dev/pwrbutton"))
    ∷ call (open_device (codes "/dev/sleepbutton"))
    ∷ call daemon
    ∷ []

watch_one :
    (a b : ℤ) (ready : Bool × Bool) (log : Log Call)
    → (b ==ℤ a) ≡ false
    → (a ==ℤ a) ≡ true
    → act_all a (a, some b) ready (log ++ (call (poll 2) ∷ [])) ≡ (next tt, log ++ pressed ready)
unfolding act_all act shutdown_cmd sleep_cmd
watch_one a b (true, true) log h k = ground (
  arith,
  append_assoc (log ++ (call (poll 2) ∷ [])) (call (system shutdown_cmd) ∷ [])
      (call (system sleep_cmd) ∷ []),
  append_assoc log (call (poll 2) ∷ []) (call (system shutdown_cmd) ∷ call (system sleep_cmd) ∷ []),
)
watch_one a b (true, false) log h k =
    ground (arith, append_assoc log (call (poll 2) ∷ []) (call (system shutdown_cmd) ∷ []))
watch_one a b (false, true) log h k =
    ground (arith, append_assoc log (call (poll 2) ∷ []) (call (system sleep_cmd) ∷ []))
watch_one a b (false, false) log h k = refl

==ℤ_refl : (a : ℤ) → (a ==ℤ a) ≡ true
==ℤ_refl (pos a) = ground arith
==ℤ_refl (negsuc a) = ground arith

given_both :
    (a b : ℤ)
    → (a ==ℤ negsuc 0) ≡ false
    → (b ==ℤ negsuc 0) ≡ false
    → given (fill a b) ≡ some (a, some b)
unfolding given fill
given_both a b h k = ground arith

watch_lem :
    (a b : ℤ) (ps : List (Bool × Bool)) (r : Round) (log : Log Call)
    → (b ==ℤ a) ≡ false
    → (a ==ℤ a) ≡ true
    → watch a (a, some b) (map some ps) r log ≡ (next tt, log ++ presses ps)
unfolding watch count
watch_lem a b [] r log h k = rw append-nil refl
watch_lem a b (p ∷ ps) r log h k =
    bind_next {C = Call} {A = Unit {0}} {B = Unit {0}} (act_all a (a, some b) p)
      (λ _. watch a (a, some b) (map some ps) (some p)) {log = log ++ (call (poll 2) ∷ [])}
      {log' = log ++ pressed p} {a = tt} (watch_one a b p log h k)
    ∙ watch_lem a b ps (some p) (log ++ pressed p) h k
    ∙ ap (λ l. (next tt, l)) (append_assoc log (pressed p) (presses ps))

module _ (sys : System) (package_version : Bytes) where
  -- Where both buttons open with different descriptors and `daemon` succeeds, a run with no argument, in
  -- which `poll` does not fail, answers each round of `poll` with the command to shut down if the
  -- power button was pressed, then with the one to restart if the sleep button was, and with nothing else,
  -- in whichever sequence the buttons are pressed.
  pub powerd_both :
      (ps : List (Bool × Bool))
      → (sys.sle_fd ==ℤ sys.pwr_fd) ≡ false
      → (sys.pwr_fd ==ℤ negsuc 0) ≡ false
      → (sys.sle_fd ==ℤ negsuc 0) ≡ false
      → sys.daemon_fails ≡ false
      → main sys package_version [] (map some ps) [] ≡ (next tt, opened ++ presses ps)
  unfolding main run while_getopt getopt
  powerd_both ps differ power sleep forks =
      rw (power, run, forks, given_both sys.pwr_fd sys.sle_fd power sleep)
        (watch_lem sys.pwr_fd sys.sle_fd ps none opened differ (==ℤ_refl sys.pwr_fd))

  -- Where only the power button opens, `poll` is given an element that was never written.
  pub powerd_power_only :
      (rounds : List Round)
      → (sys.pwr_fd ==ℤ negsuc 0) ≡ false
      → (sys.sle_fd ==ℤ negsuc 0) ≡ true
      → sys.daemon_fails ≡ false
      → main sys package_version [] rounds [] ≡ (fault, opened)
  unfolding main run while_getopt getopt given fill
  powerd_power_only rounds power sleep forks = ground arith
