-- ===== src/Execmac/Capabilities/Laws.antt =====
-- Which capabilities the words of `-c` of src/execmac.c give.
use Prim.Native.Nat.{bit_or, max}
use mathlib.Core.Logic.{ite, if_pos, if_neg}
use util_ironclad.Base.{
  ℕ, Bool, true, false, ◌||◌, Option, none, some, List, [], ◌∷◌, ◌++◌, ◌==◌, if◌then◌else◌, ◌≡◌,
  ◌≢◌, refl, arith, inl, inr, Option-cases, Bool-cases, length, drop, ap, sym, ◌∙◌,
}
use util_ironclad.Base.Bits.{bit, pow2, bit-bit_or, bit-pow2, bit-zero}
use util_ironclad.Libc.Text.{Bytes, codes, strncmp_eq, strtok}
use util_ironclad.Libc.Text.Laws.{strncmp_eq→append}
use util_ironclad.Execmac.Capabilities.{
  Capability, sched, spawn, entropy, sys_mem, use_net, sys_net, sys_mnt, sys_pwr, ptrace, setuid,
  sys_mac, clock, signalall, setgid, ipc, sys_log, capability_of, add_capabilities, translate,
}

-- The name of each capability in the usage text.
unfoldable pub name : Capability → Bytes
name sched = codes "sched"
name spawn = codes "spawn"
name entropy = codes "entropy"
name sys_mem = codes "mem"
name use_net = codes "usenet"
name sys_net = codes "sysnet"
name sys_mnt = codes "mnt"
name sys_pwr = codes "pwr"
name ptrace = codes "ptrace"
name setuid = codes "setuid"
name sys_mac = codes "mac"
name clock = codes "clock"
name signalall = codes "killall"
name setgid = codes "setgid"
name ipc = codes "ipc"
name sys_log = codes "syslog"

-- Each name, whatever follows it in the same word, stands for its own capability.
pub capability_of-name : (c : Capability) (rest : Bytes) → capability_of (name c ++ rest) ≡ some c
unfolding capability_of name codes strncmp_eq
capability_of-name sched rest = refl
capability_of-name spawn rest = refl
capability_of-name entropy rest = refl
capability_of-name sys_mem rest = refl
capability_of-name use_net rest = refl
capability_of-name sys_net rest = refl
capability_of-name sys_mnt rest = refl
capability_of-name sys_pwr rest = refl
capability_of-name ptrace rest = refl
capability_of-name setuid rest = refl
capability_of-name sys_mac rest = refl
capability_of-name clock rest = refl
capability_of-name signalall rest = refl
capability_of-name setgid rest = refl
capability_of-name ipc rest = refl
capability_of-name sys_log rest = refl

unfoldable pub Capability-discrete : Discrete Capability
Capability-discrete = hlevel

unfoldable pub is_capability : Capability → Option Capability → Bool
is_capability c none = false
is_capability c (some d) = ite (Capability-discrete c d) true false

-- The word begins with the name of the capability in the usage text.
unfoldable pub begins : Capability → Bytes → Bool
begins c word = strncmp_eq word (name c) (length (name c))

-- Some word does so.
unfoldable pub requested : Capability → List Bytes → Bool
requested c [] = false
requested c (word ∷ words) = begins c word || requested c words

begins-capability_of :
    (d : Capability) (word : Bytes) → capability_of word ≡ some d → begins d word ≡ true
unfolding begins name capability_of codes
begins-capability_of sched word e = ground arith
begins-capability_of spawn word e = ground arith
begins-capability_of entropy word e = ground arith
begins-capability_of sys_mem word e = ground arith
begins-capability_of use_net word e = ground arith
begins-capability_of sys_net word e = ground arith
begins-capability_of sys_mnt word e = ground arith
begins-capability_of sys_pwr word e = ground arith
begins-capability_of ptrace word e = ground arith
begins-capability_of setuid word e = ground arith
begins-capability_of sys_mac word e = ground arith
begins-capability_of clock word e = ground arith
begins-capability_of signalall word e = ground arith
begins-capability_of setgid word e = ground arith
begins-capability_of ipc word e = ground arith
begins-capability_of sys_log word e = ground arith

capability_of-begins :
    (c : Capability) (word : Bytes) → begins c word ≡ true → capability_of word ≡ some c
unfolding begins
capability_of-begins c word h =
    ap capability_of (strncmp_eq→append word (name c) h)
    ∙ capability_of-name c (drop (length (name c)) word)

is_capability-begins :
    (c : Capability) (word : Bytes) → is_capability c (capability_of word) ≡ begins c word
unfolding is_capability
is_capability-begins c word = elim (Bool-cases (begins c word)) [
  | inl h ↦
      rw (capability_of-begins c word h, h, is_capability)
        (if_pos (Capability-discrete c c) refl true false)
  | inr h ↦ elim (Option-cases (capability_of word)) [
    | inl e ↦ rw (e, h, is_capability) refl
    | inr (d, e) ↦
        rw (e, h, is_capability)
          (if_neg (Capability-discrete c d)
            (λ same. absurd (ground (arith, begins-capability_of c word))) true false)
  ]
]

-- The header gives each capability a bit of its own.
pub record HasBits (constant : Capability → ℕ) : Type 0 where
  pub place : Capability → ℕ
  pub constant_eq : (c : Capability) → constant c ≡ pow2 (place c)
  pub place_injective : (c d : Capability) → place c ≡ place d → c ≡ d

abbrev pub one_if : Bool → ℕ
one_if b = if b then 1 else 0

one_if-or : (a b : Bool) → one_if (a || b) ≡ max (one_if a) (one_if b)
one_if-or true b = ground arith
one_if-or false b = ground arith

same_place : (i j : ℕ) → i ≢ j → one_if (i == j) ≡ 0
same_place i j n = ground arith

module _ (constant : Capability → ℕ) (h : HasBits constant) where
  bit-constant :
      (c d : Capability) → bit (h.place c) (constant d) ≡ one_if (is_capability c (some d))
  unfolding is_capability
  bit-constant c d =
      rw (h.constant_eq d, bit-pow2 (h.place c) (h.place d))
        (elim (Capability-discrete c d) [
          | yes e ↦ rw (if_pos _ e, e) (ground arith)
          | no n ↦
              rw (if_neg _ n)
                (same_place (h.place c) (h.place d) (λ e. n (h.place_injective c d e)))
        ])

  bit-add_capabilities :
      (c : Capability) (words : List Bytes) (caps result : ℕ)
      → add_capabilities constant words caps ≡ some result
      → bit (h.place c) result ≡ max (bit (h.place c) caps) (one_if (requested c words))
  unfolding add_capabilities requested
  bit-add_capabilities c [] caps result e = ground arith
  bit-add_capabilities c (word ∷ words) caps result e = elim (Option-cases (capability_of word)) [
    | inl p ↦ absurd (ground arith)
    | inr (d, p) ↦
        let b : is_capability c (some d) ≡ begins c word =
          sym (ap (is_capability c) p) ∙ is_capability-begins c word in
        let e' : add_capabilities constant words (bit_or caps (constant d)) ≡ some result =
          ground arith in
        omega (
          arith,
          bit-add_capabilities c words (bit_or caps (constant d)) result e',
          bit-bit_or (h.place c) caps (constant d),
          bit-constant c d,
          one_if-or (begins c word) (requested c words),
          ap one_if b,
        )
  ]

  -- Where each capability has a bit of its own, and the words of `-c` are accepted and do not begin
  -- with "all", the bit of a capability is set in the result exactly if some word begins with the name
  -- that the usage text gives the capability: the words give nothing else.
  pub translate_exact :
      (optarg : Bytes) (result : ℕ) (c : Capability)
      → strncmp_eq optarg (codes "all") 3 ≡ false
      → translate constant optarg ≡ some result
      → bit (h.place c) result ≡ one_if (requested c (strtok optarg (codes ",")))
  unfolding translate
  translate_exact optarg result c n e =
      rw (bit-add_capabilities c (strtok optarg (codes ",")) 0 result (rw n at e), bit-zero)
        (omega arith)
