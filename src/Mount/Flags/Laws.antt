-- ===== src/Mount/Flags/Laws.antt =====
-- Which flags the words of `-f` set, in src/mount.c.
use Prim.Native.Nat.{bit_or, bit_and, max}
use util_ironclad.Base.{
  ℕ, Bool, true, false, not, ◌||◌, some, none, ◌==◌, if◌then◌else◌, ◌≡◌, ◌≢◌, ◌↔◌, inl, inr, refl,
  ◌∙◌, arith, List, [], ◌∷◌, Option-cases,
}
use util_ironclad.Base.Bits.{bit, pow2, bit-bit_or, bit-pow2, bit-zero, bit_and-eq-zero}
use util_ironclad.Libc.Text.{Bytes, codes, strncmp_eq}
use util_ironclad.Mount.Kinds.{Constants}
use util_ironclad.Mount.Flags.{flag_of, add_flags}

-- The header gives each flag a bit of its own.
pub record HasBits (k : Constants) : Type 0 where
  pub rdonly_bit : ℕ
  pub remount_bit : ℕ
  pub relatime_bit : ℕ
  pub noatime_bit : ℕ
  pub rdonly_eq : k.ms_rdonly ≡ pow2 rdonly_bit
  pub remount_eq : k.ms_remount ≡ pow2 remount_bit
  pub relatime_eq : k.ms_relatime ≡ pow2 relatime_bit
  pub noatime_eq : k.ms_noatime ≡ pow2 noatime_bit
  pub remount_ne : rdonly_bit ≢ remount_bit
  pub relatime_ne : rdonly_bit ≢ relatime_bit
  pub noatime_ne : rdonly_bit ≢ noatime_bit

-- Some word passes a test.
unfoldable pub any : (Bytes → Bool) → List Bytes → Bool
any test [] = false
any test (w ∷ words) = test w || any test words

abbrev pub begins_ro : Bytes → Bool
begins_ro tok = strncmp_eq tok (codes "ro") 2

unfoldable pub is_known : Bytes → Bool
is_known tok =
    strncmp_eq tok (codes "remount") 7
    || strncmp_eq tok (codes "ro") 2
    || strncmp_eq tok (codes "relatime") 8
    || strncmp_eq tok (codes "noatime") 8

-- A word that begins with "remount" does not begin with "ro".
remount_not_ro :
    (t : Bytes) → strncmp_eq t (codes "remount") 7 ≡ true → strncmp_eq t (codes "ro") 2 ≡ false
unfolding strncmp_eq codes
remount_not_ro [] h = ground arith
remount_not_ro (c ∷ []) h = ground arith
remount_not_ro (c ∷ d ∷ t) h = ground arith

same_bit : (i c : ℕ) → c ≡ pow2 i → bit i c ≡ 1
same_bit i c e = rw (e, bit-pow2 i i) (ground arith)

other_bit : (i j c : ℕ) → i ≢ j → c ≡ pow2 j → bit i c ≡ 0
other_bit i j c n e = rw (e, bit-pow2 i j) (ground arith)

-- The bits of the four flags at the place of the read-only flag.
rdonly_bits :
    (k : Constants) (h : HasBits k)
    → (bit h.rdonly_bit k.ms_rdonly ≡ 1)
      × (bit h.rdonly_bit k.ms_remount ≡ 0)
      × (bit h.rdonly_bit k.ms_relatime ≡ 0)
      × (bit h.rdonly_bit k.ms_noatime ≡ 0)
rdonly_bits k h = (
  same_bit h.rdonly_bit k.ms_rdonly h.rdonly_eq,
  other_bit h.rdonly_bit h.remount_bit k.ms_remount h.remount_ne h.remount_eq,
  other_bit h.rdonly_bit h.relatime_bit k.ms_relatime h.relatime_ne h.relatime_eq,
  other_bit h.rdonly_bit h.noatime_bit k.ms_noatime h.noatime_ne h.noatime_eq,
)

abbrev one_if : Bool → ℕ
one_if b = if b then 1 else 0

one_if-or : (a b : Bool) → one_if (a || b) ≡ max (one_if a) (one_if b)
one_if-or true b = ground arith
one_if-or false b = ground arith

one_if-not : (b : Bool) → (max 0 (one_if b) == 0) ≡ not b
one_if-not true = refl
one_if-not false = refl

flag_clear : (i x c : ℕ) → c ≡ pow2 i → (bit_and x c == 0) ≡ (bit i x == 0)
flag_clear i x c e = rw e (bit_and-eq-zero i x)

-- The chain of tests, over any answers and any bits.
chain :
    (r o l n : Bool) (i fr fo fl fn flag : ℕ)
    → (r ≡ true → o ≡ false)
    → bit i fo ≡ 1
    → bit i fr ≡ 0
    → bit i fl ≡ 0
    → bit i fn ≡ 0
    → (if r
        then some fr
        else if o
        then some fo
        else if l
        then some fl
        else if n
        then some fn
        else none)
      ≡ some flag
    → bit i flag ≡ one_if o
chain r o l n i fr fo fl fn flag h eo er el en e = ground arith

module _ (k : Constants) (h : HasBits k) where
  rdonly-flag_of :
      (tok : Bytes) (flag : ℕ)
      → flag_of k tok ≡ some flag
      → bit h.rdonly_bit flag ≡ one_if (begins_ro tok)
  unfolding flag_of
  rdonly-flag_of tok flag e =
      let (eo, er, el, en) = rdonly_bits k h in
      chain _ (begins_ro tok) _ _ h.rdonly_bit _ _ _ _ flag (remount_not_ro tok) eo er el en e

  rdonly-add_flags :
      (toks : List Bytes) (flags result : ℕ)
      → add_flags k toks flags ≡ some result
      → bit h.rdonly_bit result ≡ max (bit h.rdonly_bit flags) (one_if (any begins_ro toks))
  unfolding add_flags any
  rdonly-add_flags [] flags result e = ground arith
  rdonly-add_flags (tok ∷ toks) flags result e = elim (Option-cases (flag_of k tok)) [
    | inl p ↦ absurd (ground arith)
    | inr (flag, p) ↦
        let e' : add_flags k toks (bit_or flags flag) ≡ some result = ground arith in
        omega (
          arith,
          rdonly-add_flags toks (bit_or flags flag) result e',
          bit-bit_or h.rdonly_bit flags flag,
          rdonly-flag_of tok flag p,
          one_if-or (begins_ro tok) (any begins_ro toks),
        )
  ]

  -- Where each flag has a bit of its own and the words of `-f` are accepted, they make a mount
  -- read-only exactly when one of them begins with "ro".
  pub add_flags_rdonly :
      (toks : List Bytes) (result : ℕ)
      → add_flags k toks 0 ≡ some result
      → (bit_and result k.ms_rdonly == 0) ≡ not (any begins_ro toks)
  add_flags_rdonly toks result e =
      flag_clear h.rdonly_bit result k.ms_rdonly h.rdonly_eq
      ∙ rw (rdonly-add_flags toks 0 result e, bit-zero) (one_if-not (any begins_ro toks))

module _ (k : Constants) where
  flag_of-none : (tok : Bytes) → flag_of k tok ≡ none → is_known tok ≡ false
  unfolding flag_of is_known
  flag_of-none tok = ground arith

  flag_of-some : (tok : Bytes) (flag : ℕ) → flag_of k tok ≡ some flag → is_known tok ≡ true
  unfolding flag_of is_known
  flag_of-some tok flag = ground arith

  -- The option `-f` is refused exactly when one of its words begins with none of the four names.
  pub add_flags-eq-none_iff :
      (toks : List Bytes) (flags : ℕ)
      → (add_flags k toks flags ≡ none) ↔ (any (λ tok. not (is_known tok)) toks ≡ true)
  unfolding add_flags any
  add_flags-eq-none_iff [] flags = ground arith
  add_flags-eq-none_iff (tok ∷ toks) flags = elim (Option-cases (flag_of k tok)) [
    | inl p ↦ rw (p, add_flags, flag_of-none tok p) (λ _. refl, λ _. refl)
    | inr (flag, p) ↦
        rw (p, add_flags, flag_of-some tok flag p) (add_flags-eq-none_iff toks (bit_or flags flag))
  ]
