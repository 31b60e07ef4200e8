-- ===== src/Execmac/Capabilities.antt =====
-- src/execmac.c: the capabilities of `-c`.
pub mod Laws
use Prim.Native.Nat.{bit_or}
use util_ironclad.Base.{ℕ, ◌-◌, ◌^◌, Bool, Option, none, some, List, [], ◌∷◌, if◌then◌else◌}
use util_ironclad.Libc.Text.{Bytes, codes, strncmp_eq, strtok}

-- The constants `MAC_CAP_...` of <sys/mac.h>.
pub data Capability : Type 0 where
  sched spawn entropy sys_mem use_net sys_net sys_mnt sys_pwr ptrace setuid sys_mac clock signalall
        setgid ipc sys_log :
      Capability

-- The chain of tests in the loop of `case 'c'`; `none` for a word that is none of the names.
unfoldable pub capability_of : Bytes → Option Capability
capability_of capability =
    if strncmp_eq capability (codes "sched") 5
    then some sched
    else if strncmp_eq capability (codes "spawn") 5
    then some spawn
    else if strncmp_eq capability (codes "entropy") 7
    then some entropy
    else if strncmp_eq capability (codes "mem") 3
    then some sys_mem
    else if strncmp_eq capability (codes "usenet") 6
    then some use_net
    else if strncmp_eq capability (codes "sysnet") 6
    then some sys_net
    else if strncmp_eq capability (codes "mnt") 3
    then some sys_mnt
    else if strncmp_eq capability (codes "pwr") 3
    then some sys_pwr
    else if strncmp_eq capability (codes "ptrace") 6
    then some ptrace
    else if strncmp_eq capability (codes "setuid") 6
    then some setuid
    else if strncmp_eq capability (codes "mac") 3
    then some sys_mac
    else if strncmp_eq capability (codes "clock") 5
    then some clock
    else if strncmp_eq capability (codes "killall") 7
    then some signalall
    else if strncmp_eq capability (codes "setgid") 6
    then some setgid
    else if strncmp_eq capability (codes "ipc") 3
    then some ipc
    else if strncmp_eq capability (codes "syslog") 6
    then some sys_log
    else none

module _ (constant : Capability → ℕ) where
  unfoldable pub add_capabilities : List Bytes → ℕ → Option ℕ
  add_capabilities [] translated_caps = some translated_caps
  add_capabilities (word ∷ words) translated_caps = elim (capability_of word) [
    | none ↦ none
    | some cap ↦ add_capabilities words (bit_or translated_caps (constant cap))
  ]

  -- `case 'c'`; `none` for a bad name. `(uint64_t)-1` has all bits set.
  unfoldable pub translate : Bytes → Option ℕ
  unfolding add_capabilities
  translate optarg =
      if strncmp_eq optarg (codes "all") 3
      then some (2 ^ 64 - 1)
      else add_capabilities (strtok optarg (codes ",")) 0
