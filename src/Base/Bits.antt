-- ===== src/Base/Bits.antt =====
-- The bits of a number, and what `|` and `&` do to them.
use Prim.Native.Nat.{
  ℕ, zero, suc, ◌+◌, ◌*◌, ◌/◌, ◌%◌, ◌≤◌, min, max, bit_and, bit_or, digits, bit_and-bitwise,
  bit_or-bitwise,
}
use mathlib.Core.Path.{◌≡◌, refl, sym, ◌∙◌, ap}
use native.Mathlib.Omega.{arith}
use util_ironclad.Base.Tests.{◌==◌, ==_iff, ==_refl, Bool-cases, if◌then◌else◌}
use mathlib.Core.Logic.{inl, inr}

-- The bit of weight 2 ^ i, as 0 or 1.
abbrev pub bit : ℕ → ℕ → ℕ
bit zero a = a % 2
bit (suc i) a = bit i (a / 2)

-- 2 to the power of `i`, in a form that computes at a variable's successor.
abbrev pub pow2 : ℕ → ℕ
pow2 zero = 1
pow2 (suc i) = 2 * pow2 i

pub bit-zero : (i : ℕ) → bit i 0 ≡ 0
bit-zero zero = refl
bit-zero (suc i) = bit-zero i

pub bit-pow2 : (i j : ℕ) → bit i (pow2 j) ≡ (if i == j then 1 else 0)
bit-pow2 zero zero = refl
bit-pow2 zero (suc j) = ground arith
bit-pow2 (suc i) zero = bit-zero i ∙ ground arith
bit-pow2 (suc i) (suc j) = ap (bit i) (half (pow2 j)) ∙ bit-pow2 i j ∙ ground arith
  where
    half : (n : ℕ) → 2 * n / 2 ≡ n
    half n = omega arith

pub bit-le-one : (i a : ℕ) → bit i a ≤ 1
bit-le-one zero a = omega arith
bit-le-one (suc i) a = bit-le-one i (a / 2)

-- The digits of an operation `f` on bits, where `z` gives what is left once the first number has
-- run out.
module _ (z : ℕ → ℕ) (f : ℕ → ℕ → ℕ) (f_bit : (x y : ℕ) → x ≤ 1 → y ≤ 1 → f x y ≤ 1)
    (z_bit : (i b : ℕ) → bit i (z b) ≡ f 0 (bit i b)) where
  ended : (i b : ℕ) → bit i (z b) ≡ f (bit i 0) (bit i b)
  ended i b = z_bit i b ∙ ap (λ x. f x (bit i b)) (sym (bit-zero i))

  low_bit : (x a b : ℕ) → (x * 2 + f (a % 2) (b % 2)) % 2 ≡ f (a % 2) (b % 2)
  low_bit x a b = omega (arith, f_bit (a % 2) (b % 2) (omega arith) (omega arith))

  high_bits : (x a b : ℕ) → (x * 2 + f (a % 2) (b % 2)) / 2 ≡ x
  high_bits x a b = omega (arith, f_bit (a % 2) (b % 2) (omega arith) (omega arith))

  bit-digits : (i n a b : ℕ) → a ≤ n → bit i (digits z f n a b) ≡ f (bit i a) (bit i b)
  bit-digits i zero zero b h = ended i b
  bit-digits i zero (suc a) b h = absurd (omega arith)
  bit-digits i (suc n) zero b h = ended i b
  bit-digits zero (suc n) (suc a) b h = low_bit (digits z f n (suc a / 2) (b / 2)) (suc a) b
  bit-digits (suc i) (suc n) (suc a) b h =
      ap (bit i) (high_bits (digits z f n (suc a / 2) (b / 2)) (suc a) b)
      ∙ bit-digits i n (suc a / 2) (b / 2) (omega arith)

-- A bit of `a | b` is set if it is set in `a` or in `b`.
pub bit-bit_or : (i a b : ℕ) → bit i (bit_or a b) ≡ max (bit i a) (bit i b)
bit-bit_or i a b =
    ap (bit i) (bit_or-bitwise a b)
    ∙ bit-digits (λ c. c) max (λ x y p q. omega arith) (λ j c. omega arith) i a a b (omega arith)

-- A bit of `a & b` is set if it is set in both.
pub bit-bit_and : (i a b : ℕ) → bit i (bit_and a b) ≡ min (bit i a) (bit i b)
bit-bit_and i a b =
    ap (bit i) (bit_and-bitwise a b)
    ∙ bit-digits (λ c. 0) min (λ x y p q. omega arith) (λ j c. omega (arith, bit-zero j)) i a a b
        (omega arith)

-- A number without bits is 0.
bits_clear : (n x : ℕ) → x ≤ n → ((i : ℕ) → bit i x ≡ 0) → x ≡ 0
bits_clear zero x h c = omega arith
bits_clear (suc n) zero h c = refl
bits_clear (suc n) (suc x) h c =
    omega (arith, c 0, bits_clear n (suc x / 2) (omega arith) (λ i. c (suc i)))

-- Two numbers with the same bits are equal.
bits_same : (n a b : ℕ) → a ≤ n → ((i : ℕ) → bit i a ≡ bit i b) → a ≡ b
bits_same zero a b h c =
    omega (arith, bits_clear b b (omega arith) (λ i. omega (arith, sym (c i) ∙ at_zero i)))
  where
    at_zero : (i : ℕ) → bit i a ≡ 0
    at_zero i = ap (bit i) (omega arith) ∙ bit-zero i
bits_same (suc n) a b h c =
    omega (arith, c 0, bits_same n (a / 2) (b / 2) (omega arith) (λ i. c (suc i)))

pub bit-ext : (a b : ℕ) → ((i : ℕ) → bit i a ≡ bit i b) → a ≡ b
bit-ext a b c = bits_same a a b (omega arith) c

same_test : (m n : ℕ) → (m ≡ 0 → n ≡ 0) → (n ≡ 0 → m ≡ 0) → (m == 0) ≡ (n == 0)
same_test m n to from = ground arith

-- The test of one flag reads the bit of that flag.
pub bit_and-eq-zero : (j a : ℕ) → (bit_and a (pow2 j) == 0) ≡ (bit j a == 0)
bit_and-eq-zero j a =
    same_test (bit_and a (pow2 j)) (bit j a)
      (λ e.
        omega (arith, bit-bit_and j a (pow2 j), self j, ap (bit j) e ∙ bit-zero j, bit-le-one j a))
      (λ e.
        bits_clear (bit_and a (pow2 j)) (bit_and a (pow2 j)) (omega arith)
          (λ i. at_flag i ∙ off i e))
  where
    at_flag : (i : ℕ) → bit i (bit_and a (pow2 j)) ≡ min (bit i a) (if i == j then 1 else 0)
    at_flag i = bit-bit_and i a (pow2 j) ∙ ap (min (bit i a)) (bit-pow2 i j)

    off : (i : ℕ) → bit j a ≡ 0 → min (bit i a) (if i == j then 1 else 0) ≡ 0
    off i e = elim (Bool-cases (i == j)) [
      | inl h ↦ omega (arith, ap (λ n. bit n a) ((==_iff i j).0 h))
      | inr h ↦ rw h (omega arith)
    ]

    self : (i : ℕ) → bit i (pow2 i) ≡ 1
    self i = bit-pow2 i i ∙ rw ==_refl refl
