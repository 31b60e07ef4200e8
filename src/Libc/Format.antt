-- ===== src/Libc/Format.antt =====
-- The conversions of `printf` that the programs use, on values of at most 64 bits.
pub mod Laws
use util_ironclad.Base.{
  ℕ, zero, suc, ◌+◌, ◌-◌, ◌*◌, ◌/◌, ◌%◌, ◌≤◌, ◌<◌, List, [], ◌∷◌, ◌++◌, ltb, if◌then◌else◌, length,
  replicate, take, ◌≡◌, ℤ, pos, negsuc,
}
use util_ironclad.Libc.Text.{Bytes}

-- A digit in lower case.
unfoldable pub digit : ℕ → ℕ
digit d = if ltb d 10 then b'0' + d else b'a' + (d - 10)

-- The digits of `n` without leading zeros, the last `fuel` of them.
unfoldable pub digits : ℕ → ℕ → ℕ → Bytes
unfolding digit
digits base zero n = []
digits base (suc fuel) n =
    let more = digits base fuel (n / base) ++ (digit (n % base) ∷ []) in
    if ltb n base then digit n ∷ [] else more

-- `%u` and `%lu`: 20 digits hold every value below 2 ^ 64.
unfoldable pub dec : ℕ → Bytes
unfolding digits
dec n = digits 10 20 n

-- `%x` and `%lx`: 16 digits hold every value below 2 ^ 64.
unfoldable pub hex : ℕ → Bytes
unfolding digits
hex n = digits 16 16 n

-- `%o`: 22 digits hold every value below 2 ^ 64.
unfoldable pub oct : ℕ → Bytes
unfolding digits
oct n = digits 8 22 n

-- `%d` and `%ld`
unfoldable pub dec_ℤ : ℤ → Bytes
unfolding dec
dec_ℤ (pos n) = dec n
dec_ℤ (negsuc n) = b'-' ∷ dec (suc n)

-- A minimal field width or precision, filled by `c`.
unfoldable pub pad : ℕ → ℕ → Bytes → Bytes
pad c width s = replicate (width - length s) c ++ s

-- `%{w}d` and `%{w}s`
unfoldable pub wide : ℕ → Bytes → Bytes
unfolding pad
wide width s = pad 32 width s

-- `%0{w}x` and `%{w}.{w}x`
unfoldable pub hex_wide : ℕ → ℕ → Bytes
unfolding pad hex
hex_wide width n = pad b'0' width (hex n)

-- `%.*s`: at most `n` bytes of `s`. `s` is the text up to its terminating zero, if it has one.
abbrev pub prefix : ℕ → Bytes → Bytes
prefix n s = take n s

-- `snprintf(str, size, ...)`, of which `text` is the whole print: one byte is left for the zero.
abbrev pub snprintf : ℕ → Bytes → Bytes
snprintf size text = take (size - 1) text
