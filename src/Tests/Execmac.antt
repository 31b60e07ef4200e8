-- ===== src/Tests/Execmac.antt =====
-- A system on which src/execmac.c starts a command with two capabilities.
use util_ironclad.Base.{
  ℕ, ◌^◌, pos, false, Option, none, some, [], ◌∷◌, ◌++◌, ◌≡◌, refl, sym, ap, ◌∙◌, ◌-◌, arith,
  if◌then◌else◌, get_elem?,
}
use util_ironclad.Base.Bits.{bit, pow2}
use util_ironclad.Libc.Text.{Bytes, codes, strtok, strncmp_eq}
use util_ironclad.Run.{exit, replaced, call, perror}
use util_ironclad.Execmac.Capabilities.{
  Capability, sched, spawn, entropy, sys_mem, use_net, sys_net, sys_mnt, sys_pwr, ptrace, setuid,
  sys_mac, clock, signalall, setgid, ipc, sys_log, capability_of, translate,
}
use util_ironclad.Execmac.Capabilities.Laws.{requested, HasBits, one_if, translate_exact}
use util_ironclad.Execmac.Main.{
  get_mac_capabilities, set_mac_capabilities, fork, execvp, System, main,
}
use util_ironclad.Execmac.Main.Laws.{main_child}

abbrev place : Capability → ℕ
place sched = 0
place spawn = 1
place entropy = 2
place sys_mem = 3
place use_net = 4
place sys_net = 5
place sys_mnt = 6
place sys_pwr = 7
place ptrace = 8
place setuid = 9
place sys_mac = 10
place clock = 11
place signalall = 12
place setgid = 13
place ipc = 14
place sys_log = 15

abbrev constant : Capability → ℕ
constant c = pow2 (place c)

abbrev at_place : ℕ → Option Capability
at_place n =
    get_elem?
      (sched ∷ spawn ∷ entropy ∷ sys_mem ∷ use_net ∷ sys_net ∷ sys_mnt ∷ sys_pwr ∷ ptrace ∷ setuid
        ∷ sys_mac ∷ clock ∷ signalall ∷ setgid ∷ ipc ∷ sys_log ∷ [])
      n

at_place-place : (c : Capability) → at_place (place c) ≡ some c
at_place-place sched = refl
at_place-place spawn = refl
at_place-place entropy = refl
at_place-place sys_mem = refl
at_place-place use_net = refl
at_place-place sys_net = refl
at_place-place sys_mnt = refl
at_place-place sys_pwr = refl
at_place-place ptrace = refl
at_place-place setuid = refl
at_place-place sys_mac = refl
at_place-place clock = refl
at_place-place signalall = refl
at_place-place setgid = refl
at_place-place ipc = refl
at_place-place sys_log = refl

same_some : (c d : Capability) → some c ≡ some d → c ≡ d
same_some c d e = cc

abbrev constant-HasBits : HasBits constant
constant-HasBits = record {
  place = place;
  constant_eq = λ c. refl;
  place_injective =
      λ c d e. same_some c d (sym (at_place-place c) ∙ ap at_place e ∙ at_place-place d);
}

abbrev sys : System
sys = record {
  capabilities = λ log. 2 ^ 64 - 1;
  set_fails = λ caps log. false;
  filter_fails = λ path perms log. false;
  exec_fails = λ command log. false;
  fork_result = λ log. pos 0;
  waits = λ child log. some (some 0);
}

-- "clock,sched", "nosched" and "ls"
abbrev words : Bytes
words = b'c' ∷ b'l' ∷ b'o' ∷ b'c' ∷ b'k' ∷ b',' ∷ b's' ∷ b'c' ∷ b'h' ∷ b'e' ∷ b'd' ∷ []

abbrev bad_words : Bytes
bad_words = b'n' ∷ b'o' ∷ b's' ∷ b'c' ∷ b'h' ∷ b'e' ∷ b'd' ∷ []

abbrev ls : Bytes
ls = b'l' ∷ b's' ∷ []

words_caps : translate constant words ≡ some 2049
unfolding translate capability_of codes strncmp_eq strtok
words_caps = refl

words_bad : translate constant bad_words ≡ none
unfolding translate capability_of codes strncmp_eq strtok
words_bad = refl

not_all : strncmp_eq words (codes "all") 3 ≡ false
unfolding codes strncmp_eq
not_all = refl

exact_example : bit 8 2049 ≡ one_if (requested ptrace (strtok words (codes ",")))
exact_example = translate_exact constant constant-HasBits words 2049 ptrace not_all words_caps

child_example : main sys constant [] (codes "-c" ∷ words ∷ ls ∷ []) [] ≡ (
    if sys.set_fails 2049 (call get_mac_capabilities ∷ call fork ∷ [])
    then (
      exit (pos 1),
      (call get_mac_capabilities ∷ call fork ∷ call (set_mac_capabilities 2049) ∷ [])
          ++ (perror (codes "execmac: Could not set MAC capabilities") ∷ []),
    )
    else if sys.exec_fails
        (ls ∷ [])
        (call get_mac_capabilities ∷ call fork ∷ call (set_mac_capabilities 2049) ∷ [])
    then (
      exit (pos 1),
      (call get_mac_capabilities ∷ call fork ∷ call (set_mac_capabilities 2049) ∷ [])
          ++ (call (execvp (ls ∷ [])) ∷ perror (codes "execmac: Could not launch program") ∷ []),
    )
    else (
      replaced,
      (call get_mac_capabilities ∷ call fork ∷ call (set_mac_capabilities 2049) ∷ [])
          ++ (call (execvp (ls ∷ [])) ∷ []),
    ))
child_example = main_child sys constant [] words ls [] 2049 (λ e. omega arith) words_caps refl
