-- ===== src/Execmac/Main.antt =====
-- src/execmac.c: `main`.
pub mod Laws
use util_ironclad.Base.{
  ℕ, ℤ, pos, negsuc, Bool, true, false, Option, none, some, List, [], ◌∷◌, ◌++◌, ◌||◌, ◌==◌, ◌==ℤ◌,
  if◌then◌else◌, map, drop,
}
use util_ironclad.Libc.Text.{Bytes, codes, strncmp_eq}
use util_ironclad.Libc.Getopt.{getopt}
use util_ironclad.Run.{
  Run, Log, call, perror, return, stop, exec_done, put, ask, when, fail, complain, while_getopt,
  ◌>>=◌, ◌>>◌,
}
use util_ironclad.Commons.{help, version}
use util_ironclad.Execmac.Capabilities.{Capability, translate}

-- The lines that `-h` prints.
unfoldable pub usage : List Bytes
unfolding codes
usage = map codes (
    "Usage: execmac [options] [command]" ∷ "" ∷ "Options:" ∷ "-h            Print this help message"
    ∷ "-v            Print version information" ∷ "-p            Policy to use, can be D, S, K"
    ∷ "-c            Capabilities to give the command" ∷ "-f            Add a file filter" ∷ ""
    ∷ "Command:" ∷ "Command that will be run using the passed MAC settings" ∷ ""
    ∷ "Available capabilities for \"-c cap1,cap2,cap3\":"
    ∷ "sched:   Can change its own scheduling rules." ∷ "spawn:   Can create other processes."
    ∷ "entropy: Can access entropy-related syscalls."
    ∷ "mem:     Can allocate and deallocate global memory." ∷ "usenet:  Can use network."
    ∷ "sysnet:  Can configure networking system-wide." ∷ "mnt:     Can mount/unmount."
    ∷ "pwr:     Can modify power levels and reboot/shutdown."
    ∷ "ptrace:  Can use ptrace to trace children."
    ∷ "setuid:  Can change the effective and real UID."
    ∷ "mac:     Can modify MAC permissions and enforcement" ∷ "clock:   Can access clock resources"
    ∷ "killall: Can kill and signal to all processes" ∷ "setgid:  Can change process group ID"
    ∷ "ipc:     Can manage system IPC resources" ∷ "syslog:  Can access system logs, like dmesg"
    ∷ "all:     Use all capabilities, must be passed alone." ∷ [])

-- The constants `MAC_DENY`, `MAC_DENY_AND_SCREAM` and `MAC_KILL`.
pub data Policy : Type 0 where
  deny deny_and_scream kill : Policy

pub data Call : Type 0 where
  get_mac_capabilities : Call
  set_mac_capabilities : ℕ → Call
  add_mac_permissions : Bytes → ℕ → Call
  set_mac_enforcement : Policy → Call
  fork : Call
  execvp : List Bytes → Call
  waitpid : ℤ → Call

-- The replies: the capabilities of the process; whether the two calls that change them and `execvp`
-- fail; the result of `fork`; `none` where `waitpid` fails, and else the exit status of a child that
-- exited, or `none` for one that was killed.
pub record System : Type 0 where
  pub capabilities : Log Call → ℕ
  pub set_fails : ℕ → Log Call → Bool
  pub filter_fails : Bytes → ℕ → Log Call → Bool
  pub exec_fails : List Bytes → Log Call → Bool
  pub fork_result : Log Call → ℤ
  pub waits : ℤ → Log Call → Option (Option ℕ)

module _ (sys : System) where
  -- `case 'f'`: the path and the permissions that are given for it.
  unfoldable pub add_filter : Bytes → Run Call (Unit {0})
  add_filter optarg =
      let path = if strncmp_eq optarg (codes "/dev/") 5 then drop 5 optarg else optarg in
      let perms = if strncmp_eq optarg (codes "/dev/") 5 then 0b1011111 else 0b11111 in
      ask (add_mac_permissions path perms) (sys.filter_fails path perms)
      >>= (λ failed. when failed (fail (codes "execmac: Could not set file filter")))

  -- `case 'p'`
  unfoldable pub set_policy : Bytes → Run Call (Unit {0})
  set_policy optarg =
      if strncmp_eq optarg (codes "D") 1
      then put (call (set_mac_enforcement deny))
      else if strncmp_eq optarg (codes "S") 1
      then put (call (set_mac_enforcement deny_and_scream))
      else if strncmp_eq optarg (codes "K") 1
      then put (call (set_mac_enforcement kill))
      else fail (codes "execmac: Invalid policy")

  -- The variable of the loop is `translated_caps`.
  unfoldable pub on_opt : (Capability → ℕ) → Bytes → ℕ → Bytes → ℕ → Run Call ℕ
  on_opt constant package_version c optarg translated_caps =
      if c == b'h'
      then help usage
      else if c == b'v'
      then version (codes "execmac") package_version
      else if c == b'c'
      then elim (translate constant optarg) [
        | none ↦ complain (codes "execmac: bad cap")
        | some caps ↦ return caps
      ]
      else if c == b'f'
      then (add_filter optarg >> return translated_caps)
      else (set_policy optarg >> return translated_caps)

  unfoldable pub on_bad : ℕ → Run Call (Unit {0})
  on_bad optopt =
      when (optopt == b'c' || optopt == b'f' || optopt == b'p')
        (complain (codes "execmac: " ++ (optopt ∷ codes " needs an argument\n")))

  -- The body of `if (child == 0)`.
  unfoldable pub child_runs : ℕ → List Bytes → Run Call (Unit {0})
  child_runs translated_caps command = do
    set_failed ← ask (set_mac_capabilities translated_caps) (sys.set_fails translated_caps)
    when set_failed (fail (codes "execmac: Could not set MAC capabilities"))
    exec_failed ← ask (execvp command) (sys.exec_fails command)
    when exec_failed (fail (codes "execmac: Could not launch program"))
    exec_done

  unfoldable pub parent_waits : ℤ → Run Call (Unit {0})
  parent_waits child = do
    status ← ask (waitpid child) (sys.waits child)
    elim status [
      | none ↦ fail (codes "execmac: Could not wait for child")
      | some none ↦ stop (pos 1)
      | some (some code) ↦ stop (pos code)
    ]

  unfoldable pub launch : ℕ → List Bytes → Run Call (Unit {0})
  launch translated_caps command = do
    child ← ask fork sys.fork_result
    when (child ==ℤ pos 0) (child_runs translated_caps command)
    parent_waits child

  unfoldable pub main : (Capability → ℕ) → Bytes → List Bytes → Run Call (Unit {0})
  main constant package_version args = do
    caps ← ask get_mac_capabilities sys.capabilities
    (translated_caps, command) ←
        while_getopt (on_opt constant package_version) on_bad (getopt (codes "hvc:f:p:") args) caps
    launch translated_caps command
