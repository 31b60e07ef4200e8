-- ===== src/Mount/Flags/Options.antt =====
-- The flags of a line of the table in src/mount.c, by the options that the line has.
use Prim.Native.Nat.{bit_or, max}
use util_ironclad.Base.{ℕ, Bool, true, false, ◌||◌, if◌then◌else◌, ◌≡◌, refl, arith, List, [], ◌∷◌}
use util_ironclad.Base.Bits.{bit, bit-bit_or, bit-zero, bit-ext}
use util_ironclad.Libc.Text.{Bytes, codes, str_eq, str_eq→eq}
use util_ironclad.Mount.Kinds.{Constants}
use util_ironclad.Mount.Flags.{fstab_flag, fstab_flags}
use util_ironclad.Mount.Flags.Laws.{any}

abbrev pub is_ro : Bytes → Bool
is_ro token = str_eq token (codes "ro")

abbrev pub is_relatime : Bytes → Bool
is_relatime token = str_eq token (codes "relatime")

abbrev pub is_noatime : Bytes → Bool
is_noatime token = str_eq token (codes "noatime")

abbrev pub when_set : Bool → ℕ → ℕ
when_set b n = if b then n else 0

-- The flags of the options "ro", "relatime" and "noatime" that are among the tokens.
abbrev pub flags_asked : Constants → List Bytes → ℕ
flags_asked k tokens =
    bit_or
      (bit_or (when_set (any is_ro tokens) k.ms_rdonly)
        (when_set (any is_relatime tokens) k.ms_relatime))
      (when_set (any is_noatime tokens) k.ms_noatime)

ro_alone : (t : Bytes) → is_ro t ≡ true → is_relatime t || is_noatime t ≡ false
unfolding str_eq codes
ro_alone t h = rw (str_eq→eq t (codes "ro") h) refl

relatime_alone : (t : Bytes) → is_relatime t ≡ true → is_noatime t ≡ false
unfolding str_eq codes
relatime_alone t h = rw (str_eq→eq t (codes "relatime") h) refl

when_set-or : (a b : Bool) (n : ℕ) → when_set (a || b) n ≡ max (when_set a n) (when_set b n)
when_set-or a b n = ground arith

bit-when_set : (i : ℕ) (b : Bool) (n : ℕ) → bit i (when_set b n) ≡ when_set b (bit i n)
bit-when_set i true n = refl
bit-when_set i false n = bit-zero i

-- The bit of one option and of all, from the bits of the three flags.
abbrev among : ℕ → Constants → Bool → Bool → Bool → ℕ
among i k r l n =
    max (max (when_set r (bit i k.ms_rdonly)) (when_set l (bit i k.ms_relatime)))
      (when_set n (bit i k.ms_noatime))

module _ (k : Constants) (i : ℕ) where
  bit-fstab_flag :
      (t : Bytes) (flags : ℕ)
      → bit i (fstab_flag k t flags)
        ≡ max (bit i flags) (among i k (is_ro t) (is_relatime t) (is_noatime t))
  unfolding fstab_flag
  bit-fstab_flag t flags = ground (
    arith,
    ro_alone t,
    relatime_alone t,
    bit-bit_or i flags k.ms_rdonly,
    bit-bit_or i flags k.ms_relatime,
    bit-bit_or i flags k.ms_noatime,
  )

  bit-fstab_flags :
      (ts : List Bytes) (flags : ℕ)
      → bit i (fstab_flags k ts flags)
        ≡ max (bit i flags) (among i k (any is_ro ts) (any is_relatime ts) (any is_noatime ts))
  unfolding fstab_flags any
  bit-fstab_flags [] flags = omega arith
  bit-fstab_flags (t ∷ ts) flags = omega (
    arith,
    bit-fstab_flags ts (fstab_flag k t flags),
    bit-fstab_flag t flags,
    when_set-or (is_ro t) (any is_ro ts) (bit i k.ms_rdonly),
    when_set-or (is_relatime t) (any is_relatime ts) (bit i k.ms_relatime),
    when_set-or (is_noatime t) (any is_noatime ts) (bit i k.ms_noatime),
  )

  bit-flags_asked :
      (ts : List Bytes)
      → bit i (flags_asked k ts) ≡ among i k (any is_ro ts) (any is_relatime ts) (any is_noatime ts)
  bit-flags_asked ts =
      let r : ℕ = when_set (any is_ro ts) k.ms_rdonly in
      let l : ℕ = when_set (any is_relatime ts) k.ms_relatime in
      let n : ℕ = when_set (any is_noatime ts) k.ms_noatime in
      omega (
        arith,
        bit-bit_or i (bit_or r l) n,
        bit-bit_or i r l,
        bit-when_set i (any is_ro ts) k.ms_rdonly,
        bit-when_set i (any is_relatime ts) k.ms_relatime,
        bit-when_set i (any is_noatime ts) k.ms_noatime,
      )

pub fstab_flags_lem :
    (k : Constants) (tokens : List Bytes) → fstab_flags k tokens 0 ≡ flags_asked k tokens
fstab_flags_lem k tokens =
    bit-ext (fstab_flags k tokens 0) (flags_asked k tokens)
      (λ i. omega (arith, bit-fstab_flags k i tokens 0, bit-zero i, bit-flags_asked k i tokens))
