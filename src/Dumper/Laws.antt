-- ===== src/Dumper/Laws.antt =====
-- The print of src/dumper.c determines the general registers.
use util_ironclad.Base.{ℕ, ◌<◌, List, [], ◌∷◌, ◌++◌, ◌≡◌, ◌∙◌, refl, sym, arith, All}
use util_ironclad.Libc.Text.{Bytes}
use util_ironclad.Libc.Format.{hex_wide}
use util_ironclad.Libc.Format.Laws.{pow16, length-hex_wide, hex_wide-injective, append-injective}
use util_ironclad.Dumper.{Registers, row, dump}

-- A text behind a prefix, or a number of 16 digits before a text, is determined.
behind-injective : (a s t : Bytes) → a ++ s ≡ a ++ t → s ≡ t
behind-injective a s t e = (append-injective a a s t refl e).1

number-injective :
    (x y : ℕ) (s t : Bytes)
    → x < pow16 16
    → y < pow16 16
    → hex_wide 16 x ++ s ≡ hex_wide 16 y ++ t
    → (x ≡ y) × (s ≡ t)
number-injective x y s t hx hy e =
    let (same, rest) =
      append-injective (hex_wide 16 x) (hex_wide 16 y) s t
        (length-hex_wide 15 x hx ∙ sym (length-hex_wide 15 y hy)) e in
    (hex_wide-injective 16 x y hx hy same, rest)

-- Three 64-bit values.
abbrev pub Fits : ℕ × ℕ × ℕ → Type 0
Fits (x, y, z) = (x < pow16 16) × (y < pow16 16) × (z < pow16 16)

row-injective :
    (a b c : Bytes) (x y z x' y' z' : ℕ)
    → Fits (x, y, z)
    → Fits (x', y', z')
    → row a x b y c z ≡ row a x' b y' c z'
    → ◌≡◌ {A = ℕ × ℕ × ℕ} (x, y, z) (x', y', z')
unfolding row
row-injective a b c x y z x' y' z' (hx, hy, hz) (hx', hy', hz') e =
    let (ex, e1) = number-injective x x' _ _ hx hx' (behind-injective a _ _ e) in
    let (ey, e2) = number-injective y y' _ _ hy hy' (behind-injective b _ _ e1) in
    let (ez, e3) = number-injective z z' _ _ hz hz' (behind-injective c _ _ e2) in
    λ i. (ex i, ey i, ez i)

-- The registers that are printed with 16 digits, by their rows.
abbrev pub general : Registers → List (ℕ × ℕ × ℕ)
general r =
    (r.rax, r.rbx, r.rcx)
    ∷ (r.rdx, r.rsi, r.rdi)
    ∷ (r.rbp, r.r8, r.r9)
    ∷ (r.r10, r.r11, r.r12)
    ∷ (r.r13, r.r14, r.r15)
    ∷ []

-- The five rows of two dumps that are alike.
rows_alike :
    {h a b c d e : Bytes} {h' a' b' c' d' e' : Bytes} {m m' : List Bytes}
    → ◌≡◌ {A = List Bytes} (h ∷ a ∷ b ∷ c ∷ d ∷ e ∷ m) (h' ∷ a' ∷ b' ∷ c' ∷ d' ∷ e' ∷ m')
    → (a ≡ a') × (b ≡ b') × (c ≡ c') × (d ≡ d') × (e ≡ e')
rows_alike same = ground arith

-- Two dumps of 64-bit registers that are printed alike have the same general registers.
pub dump-injective :
    (r r' : Registers)
    → All Fits (general r)
    → All Fits (general r')
    → dump r ≡ dump r'
    → general r ≡ general r'
unfolding dump
dump-injective r r' (f, (g, (h, (j, (k, _))))) (f', (g', (h', (j', (k', _))))) same =
    let (a, b, c, d, e) = rows_alike same in
    let ea = row-injective _ _ _ r.rax r.rbx r.rcx r'.rax r'.rbx r'.rcx f f' a in
    let eb = row-injective _ _ _ r.rdx r.rsi r.rdi r'.rdx r'.rsi r'.rdi g g' b in
    let ec = row-injective _ _ _ r.rbp r.r8 r.r9 r'.rbp r'.r8 r'.r9 h h' c in
    let ed = row-injective _ _ _ r.r10 r.r11 r.r12 r'.r10 r'.r11 r'.r12 j j' d in
    let ee = row-injective _ _ _ r.r13 r.r14 r.r15 r'.r13 r'.r14 r'.r15 k k' e in
    λ i. ea i ∷ eb i ∷ ec i ∷ ed i ∷ ee i ∷ []
