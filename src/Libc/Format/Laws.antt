-- ===== src/Libc/Format/Laws.antt =====
-- A hexadecimal number of fixed width has that width and is read back.
use util_ironclad.Base.{
  ℕ, zero, suc, ◌+◌, ◌-◌, ◌*◌, ◌/◌, ◌%◌, ◌≤◌, ◌<◌, [], ◌∷◌, ◌++◌, ltb, if◌then◌else◌, length,
  replicate, ◌≡◌, refl, ◌∙◌, ap, arith, length-append, length-replicate, Bool-cases, inl, inr, sym,
}
use util_ironclad.Libc.Text.{Bytes}
use util_ironclad.Libc.Format.{digit, digits, hex_wide}

-- 16 to the power of `w`, in a form that computes at a variable's successor.
abbrev pub pow16 : ℕ → ℕ
pow16 zero = 1
pow16 (suc w) = 16 * pow16 w

digit_value : ℕ → ℕ
digit_value c = if ltb c b'a' then c - b'0' else c - b'a' + 10

digit_value-digit : (d : ℕ) → d < 16 → digit_value (digit d) ≡ d
unfolding digit_value digit
digit_value-digit d h = ground arith

-- The number that hexadecimal digits spell behind `n`.
hex_value : ℕ → Bytes → ℕ
hex_value n [] = n
hex_value n (c ∷ s) = hex_value (16 * n + digit_value c) s

hex_value-append :
    (n c : ℕ) (s : Bytes) → hex_value n (s ++ (c ∷ [])) ≡ 16 * hex_value n s + digit_value c
unfolding hex_value
hex_value-append n c [] = refl
hex_value-append n c (d ∷ s) = hex_value-append (16 * n + digit_value d) c s

hex_value-one : (n : ℕ) → n < 16 → hex_value 0 (digit n ∷ []) ≡ n
unfolding hex_value
hex_value-one n h = omega (arith, digit_value-digit n h)

hex_value-digits : (fuel n : ℕ) → n < pow16 fuel → hex_value 0 (digits 16 fuel n) ≡ n
unfolding digits
hex_value-digits zero n h = unfold hex_value in omega arith
hex_value-digits (suc fuel) n h = elim (Bool-cases (ltb n 16)) [
  | inl small ↦ rw small (hex_value-one n (ground arith))
  | inr large ↦
      rw
        (
          large,
          hex_value-append 0 (digit (n % 16)) (digits 16 fuel (n / 16)),
          hex_value-digits fuel (n / 16) (omega arith),
          digit_value-digit (n % 16) (omega arith),
        )
        (omega arith)
]

hex_value-replicate : (k : ℕ) (s : Bytes) → hex_value 0 (replicate k b'0' ++ s) ≡ hex_value 0 s
unfolding hex_value digit_value
hex_value-replicate zero s = refl
hex_value-replicate (suc k) s = hex_value-replicate k s

length-digits : (fuel n w : ℕ) → n < pow16 (suc w) → length (digits 16 fuel n) ≤ suc w
unfolding digits
length-digits zero n w h = omega arith
length-digits (suc fuel) n zero h = ground arith
length-digits (suc fuel) n (suc w) h = elim (Bool-cases (ltb n 16)) [
  | inl small ↦ rw small (omega arith)
  | inr large ↦ rw large (
      omega (
        arith,
        length-append (digits 16 fuel (n / 16)) (digit (n % 16) ∷ []),
        length-digits fuel (n / 16) w (omega arith),
      ))
]

-- A value that fits the width takes exactly that many digits.
pub length-hex_wide : (w n : ℕ) → n < pow16 (suc w) → length (hex_wide (suc w) n) ≡ suc w
unfolding hex_wide
length-hex_wide w n h =
    let bound = length-digits 16 n w h in
    omega (
      arith,
      length-append (replicate (suc w - length (digits 16 16 n)) b'0') (digits 16 16 n),
      length-replicate {A = ℕ} (suc w - length (digits 16 16 n)) b'0',
    )

hex_value-hex_wide : (w n : ℕ) → n < pow16 16 → hex_value 0 (hex_wide w n) ≡ n
unfolding hex_wide
hex_value-hex_wide w n h =
    hex_value-replicate (w - length (digits 16 16 n)) (digits 16 16 n) ∙ hex_value-digits 16 n h

-- Two 64-bit values with the same print are equal.
pub hex_wide-injective :
    (w m n : ℕ) → m < pow16 16 → n < pow16 16 → hex_wide w m ≡ hex_wide w n → m ≡ n
hex_wide-injective w m n hm hn e =
    sym (hex_value-hex_wide w m hm) ∙ ap (hex_value 0) e ∙ hex_value-hex_wide w n hn

-- Texts whose first parts are equally long are equal part by part.
pub append-injective :
    (xs ys zs ws : Bytes) → length xs ≡ length ys → xs ++ zs ≡ ys ++ ws → (xs ≡ ys) × (zs ≡ ws)
append-injective [] [] zs ws l e = (refl, e)
append-injective [] (y ∷ ys) zs ws l e = absurd (omega arith)
append-injective (x ∷ xs) [] zs ws l e = absurd (omega arith)
append-injective (x ∷ xs) (y ∷ ys) zs ws l e = ground (arith, append-injective xs ys zs ws)
