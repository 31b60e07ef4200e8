-- ===== src/Libc/Text.antt =====
-- Texts as lists of bytes with no terminating zero, and the functions of `string.h` and `stdio.h`
-- that the programs read their arguments with.
pub mod Laws
use Prim.Native.Char.{code}
use Prim.Native.String.{String}
use util_ironclad.Base.{
  length, ℕ, zero, suc, ◌+◌, ◌-◌, ◌*◌, Bool, true, false, ◌&&◌, ◌||◌, List, [], ◌∷◌, ◌++◌, Option,
  none, some, ℤ, pos, sub_ℕ, leb, ◌==◌, if◌then◌else◌, ◌≡◌, refl, arith,
}

abbrev pub Bytes : Type 0
Bytes = List ℕ

-- The bytes of an ASCII literal. It is shut, so that a message stays one atom in a proof.
unfoldable pub codes : String → Bytes
codes String.[] = []
codes (String.◌∷◌ c s) = code c ∷ codes s

-- `!strcmp(a, b)`
unfoldable pub str_eq : Bytes → Bytes → Bool
str_eq [] [] = true
str_eq [] (d ∷ b) = false
str_eq (c ∷ a) [] = false
str_eq (c ∷ a) (d ∷ b) = c == d && str_eq a b

-- `!strncmp(a, b, n)`: the end of a text differs from every byte.
unfoldable pub strncmp_eq : Bytes → Bytes → ℕ → Bool
strncmp_eq a b zero = true
strncmp_eq [] [] (suc n) = true
strncmp_eq [] (d ∷ b) (suc n) = false
strncmp_eq (c ∷ a) [] (suc n) = false
strncmp_eq (c ∷ a) (d ∷ b) (suc n) = c == d && strncmp_eq a b n

unfoldable pub contains : ℕ → Bytes → Bool
contains c [] = false
contains c (d ∷ s) = c == d || contains c s

-- The text that an array holds: its bytes up to the first zero.
unfoldable pub text_of : Bytes → Bytes
text_of [] = []
text_of (c ∷ s) = let rest = c ∷ text_of s in if c == 0 then [] else rest

-- `strcat` to a text in an array of `size` bytes; `none` where it would write past the array.
unfoldable pub strcat : ℕ → Bytes → Bytes → Option Bytes
strcat size text more =
    if leb (length text + length more + 1) size then some (text ++ more) else none

-- The token read so far, if it is not empty.
unfoldable pub flush : Bytes → List Bytes
flush [] = []
flush (c ∷ cur) = (c ∷ cur) ∷ []

unfoldable pub cut : Bytes → Bytes → Bytes → List Bytes
unfolding flush contains
cut delims [] cur = flush cur
cut delims (c ∷ s) cur = elim (contains c delims) [
  | true ↦ flush cur ++ cut delims s []
  | false ↦ cut delims s (cur ++ (c ∷ []))
]

-- The results of `strtok(s, delims)` and of `strtok(NULL, delims)` until it returns `NULL`.
unfoldable pub strtok : Bytes → Bytes → List Bytes
unfolding cut
strtok s delims = cut delims s []

-- The buffers of `size` bytes that `fgets` fills from the file `s` until it returns `NULL`: each ends
-- behind a newline, or with `size - 1` bytes, of which `left` are left for the one begun with `cur`. No
-- byte of the file is zero.
unfoldable pub fill_buffers : ℕ → Bytes → ℕ → Bytes → List Bytes
unfolding flush
fill_buffers size [] left cur = flush cur
fill_buffers size (c ∷ s) left cur = elim (c == 10 || left == 1) [
  | true ↦ (cur ++ (c ∷ [])) ∷ fill_buffers size s (size - 1) []
  | false ↦ fill_buffers size s (left - 1) (cur ++ (c ∷ []))
]

unfoldable pub fgets_all : ℕ → Bytes → List Bytes
unfolding fill_buffers
fgets_all size s = fill_buffers size s (size - 1) []

is_space : ℕ → Bool
is_space c = c == 32 || (leb 9 c && leb c 13)

is_digit : ℕ → Bool
is_digit c = leb b'0' c && leb c b'9'

-- The digits at the front of a text, read behind the value `n`.
scan_digits : Bytes → ℕ → ℕ
unfolding is_digit
scan_digits [] n = n
scan_digits (c ∷ s) n = elim (is_digit c) [ true ↦ scan_digits s (n * 10 + (c - b'0')) | false ↦ n ]

scan_number : (ℕ → ℤ) → Bytes → Option ℤ
unfolding scan_digits
scan_number sign [] = none
scan_number sign (c ∷ s) = if is_digit c then some (sign (scan_digits (c ∷ s) 0)) else none

scan_sign : Bytes → Option ℤ
unfolding scan_number
scan_sign [] = none
scan_sign (c ∷ s) =
    if c == b'-'
    then scan_number (sub_ℕ 0) s
    else if c == b'+'
    then scan_number pos s
    else scan_number pos (c ∷ s)

-- `sscanf(s, "%d", &n)`: `some n` where it returns 1, `none` where it stores nothing. A number that
-- an `int` cannot hold has no defined result in C; it is given here by its value.
unfoldable pub scan_int : Bytes → Option ℤ
unfolding scan_sign is_space
scan_int [] = none
scan_int (c ∷ s) = elim (is_space c) [ true ↦ scan_int s | false ↦ scan_sign (c ∷ s) ]

pub str_eq_refl : (a : Bytes) → str_eq a a ≡ true
unfolding str_eq
str_eq_refl [] = refl
str_eq_refl (c ∷ a) = ground (arith, str_eq_refl a)

pub str_eq→eq : (a b : Bytes) → str_eq a b ≡ true → a ≡ b
unfolding str_eq
str_eq→eq [] [] h = refl
str_eq→eq [] (d ∷ b) h = ground arith
str_eq→eq (c ∷ a) [] h = ground arith
str_eq→eq (c ∷ a) (d ∷ b) h = ground (arith, str_eq→eq a b)
