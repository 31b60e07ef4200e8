-- ===== src/Powerd.antt =====
-- src/powerd.c: `main`.
pub mod Laws
use util_ironclad.Base.{
  ℕ, zero, suc, ℤ, pos, negsuc, Bool, true, false, ◌&&◌, Option, none, some, List, [], ◌∷◌, ◌++◌,
  ◌==◌, ◌==ℤ◌, if◌then◌else◌, map,
}
use util_ironclad.Libc.Text.{Bytes, codes}
use util_ironclad.Libc.Getopt.{getopt}
use util_ironclad.Run.{
  Run, call, return, stop, undefined, put, when, fail, complain, while_getopt, ◌>>◌,
}
use util_ironclad.Commons.{help, version}

-- The lines that `-h` prints.
unfoldable pub usage : List Bytes
unfolding codes
usage = map codes (
    "Usage: powerd [options]" ∷ "" ∷ "Options:" ∷ "-h              Print this help message"
    ∷ "-v              Display version information." ∷ [])

pub data Call : Type 0 where
  open_device : Bytes → Call
  daemon : Call
  poll : ℕ → Call
  system : Bytes → Call

-- The replies: the descriptors of the two devices, -1 where one does not open, and whether `daemon` fails.
pub record System : Type 0 where
  pub pwr_fd : ℤ
  pub sle_fd : ℤ
  pub daemon_fails : Bool

-- One round of the loop: whether `poll` sets `POLLIN` in the two elements that it is given; `none` where
-- it fails, and sets nothing.
abbrev pub Round : Type 0
Round = Option (Bool × Bool)

unfoldable pub shutdown_cmd : Bytes
unfolding codes
shutdown_cmd = codes "shutdown -p now"

unfoldable pub sleep_cmd : Bytes
unfolding codes
sleep_cmd = codes "shutdown -r now"

unfoldable pub on_opt : Bytes → ℕ → Bytes → Unit {0} → Run Call (Unit {0})
on_opt package_version c optarg s =
    if c == b'h' then help usage else version (codes "powerd") package_version

unfoldable pub on_bad : ℕ → Run Call (Unit {0})
on_bad optopt = complain (codes "powerd: " ++ (optopt ∷ codes " is not a valid argument\n"))

-- The array `polled` and `idx`: the descriptors of its two elements, `none` where one was not written.
pub record Polled : Type 0 where
  pub first : Option ℤ
  pub second : Option ℤ
  pub idx : ℕ

unfoldable pub fill : ℤ → ℤ → Polled
fill pwr_fd sle_fd =
    if pwr_fd ==ℤ negsuc 0 then record { first = some sle_fd; second = none; idx = 0 } else record {
      first = some pwr_fd;
      second = if sle_fd ==ℤ negsuc 0 then none else some sle_fd;
      idx = 1;
    }

-- One pass of the inner loop, for an element with the descriptor `fd`.
unfoldable pub act : ℤ → ℤ → Bool → Run Call (Unit {0})
act pwr_fd fd false = return tt
act pwr_fd fd true = put (call (system (if fd ==ℤ pwr_fd then shutdown_cmd else sleep_cmd)))

-- The elements up to `idx`, one or two, as `poll` is given them.
abbrev pub Devices : Type 0
Devices = ℤ × Option ℤ

-- `none` where `poll` reads what was not written.
unfoldable pub given : Polled → Option Devices
given p = elim p.first [
  | none ↦ none
  | some a ↦ elim p.idx [
    | zero ↦ some (a, none)
    | suc n ↦ elim p.second [ none ↦ none | some b ↦ some (a, some b) ]
  ]
]

-- `idx + 1`
unfoldable pub count : Devices → ℕ
count (a, none) = 1
count (a, some b) = 2

-- The inner loop.
unfoldable pub act_all : ℤ → Devices → Bool × Bool → Run Call (Unit {0})
act_all pwr_fd (a, none) (first, second) = act pwr_fd a first
act_all pwr_fd (a, some b) (first, second) = do act pwr_fd a first; act pwr_fd b second

-- The endless loop, for as many rounds as are given. `revents` is `none` before `poll` has set it.
unfoldable pub watch : ℤ → Devices → List Round → Round → Run Call (Unit {0})
watch pwr_fd fds [] revents = return tt
watch pwr_fd fds (some ready ∷ rounds) revents = do
  put (call (poll (count fds)))
  act_all pwr_fd fds ready
  watch pwr_fd fds rounds (some ready)
watch pwr_fd fds (none ∷ rounds) none = do put (call (poll (count fds))); undefined
watch pwr_fd fds (none ∷ rounds) (some ready) = do
  put (call (poll (count fds)))
  act_all pwr_fd fds ready
  watch pwr_fd fds rounds (some ready)

module _ (sys : System) where
  -- From the fork into the background on.
  unfoldable pub run : List Round → Run Call (Unit {0})
  run rounds = do
    put (call daemon)
    when sys.daemon_fails (fail (codes "Could not daemonize"))
    elim (given (fill sys.pwr_fd sys.sle_fd)) [
      | none ↦ undefined
      | some fds ↦ watch sys.pwr_fd fds rounds none
    ]

  unfoldable pub main : Bytes → List Bytes → List Round → Run Call (Unit {0})
  main package_version args rounds = do
    while_getopt (on_opt package_version) on_bad (getopt (codes "hv") args) tt
    put (call (open_device (codes "/dev/pwrbutton")))
    put (call (open_device (codes "/dev/sleepbutton")))
    (if (sys.pwr_fd ==ℤ negsuc 0) && (sys.sle_fd ==ℤ negsuc 0) then stop (pos 0) else run rounds)
