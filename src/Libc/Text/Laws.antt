-- ===== src/Libc/Text/Laws.antt =====
-- What `strncmp` with a whole literal and `strtok` tell of their texts.
use util_ironclad.Base.{
  ℕ, true, false, [], ◌∷◌, ◌++◌, append-nil, append_assoc, ◌≡◌, ◌≢◌, refl, sym, ap, ◌∙◌, arith,
  length, drop, All, ◌==◌, ◌||◌, ◌<◌, ◌+◌, ◌-◌,
}
use util_ironclad.Libc.Text.{
  Bytes, strncmp_eq, contains, flush, cut, strtok, fill_buffers, fgets_all,
}

pub strncmp_eq-append : (p rest : Bytes) → strncmp_eq (p ++ rest) p (length p) ≡ true
unfolding strncmp_eq
strncmp_eq-append [] rest = refl
strncmp_eq-append (c ∷ p) rest = ground (arith, strncmp_eq-append p rest)

pub strncmp_eq→append :
    (t p : Bytes) → strncmp_eq t p (length p) ≡ true → t ≡ p ++ drop (length p) t
unfolding strncmp_eq
strncmp_eq→append t [] h = refl
strncmp_eq→append [] (c ∷ p) h = ground arith
strncmp_eq→append (d ∷ t) (c ∷ p) h = ground (arith, strncmp_eq→append t p)

-- A longer literal that begins with `p` is matched only where `p` is.
pub strncmp_eq_longer :
    (t p q : Bytes)
    → strncmp_eq t (p ++ q) (length (p ++ q)) ≡ true
    → strncmp_eq t p (length p) ≡ true
unfolding strncmp_eq
strncmp_eq_longer t [] q h = refl
strncmp_eq_longer [] (c ∷ p) q h = h
strncmp_eq_longer (d ∷ t) (c ∷ p) q h = ground (arith, strncmp_eq_longer t p q)

-- No byte of the text is a delimiter.
abbrev pub Lacks : Bytes → Bytes → Type 0
Lacks delims = All (λ c. contains c delims ≡ false)

cut-append :
    (delims w rest cur : Bytes)
    → Lacks delims w
    → cut delims (w ++ rest) cur ≡ cut delims rest (cur ++ w)
unfolding cut
cut-append delims [] rest cur h = rw append-nil
cut-append delims (c ∷ w) rest cur (hc, hw) =
    rw (hc, cut)
      (cut-append delims w rest (cur ++ (c ∷ [])) hw
        ∙ ap (cut delims rest) (append_assoc cur (c ∷ []) w))

flush_word : (w : Bytes) → w ≢ [] → flush w ≡ w ∷ []
unfolding flush
flush_word [] h = absurd (h refl)
flush_word (c ∷ w) h = refl

-- A word before a delimiter is the first token.
pub strtok_word :
    (delims w : Bytes) (d : ℕ) (rest : Bytes)
    → w ≢ []
    → Lacks delims w
    → contains d delims ≡ true
    → strtok (w ++ (d ∷ rest)) delims ≡ w ∷ strtok rest delims
unfolding strtok
strtok_word delims w d rest h k e =
    cut-append delims w (d ∷ rest) [] k ∙ rw (e, cut) (rw (flush_word w h))

-- A delimiter at the front is passed over.
pub strtok_skip :
    (delims : Bytes) (d : ℕ) (rest : Bytes)
    → contains d delims ≡ true
    → strtok (d ∷ rest) delims ≡ strtok rest delims
unfolding strtok flush
strtok_skip delims d rest e = rw (e, cut)

-- A word at the end is the only token.
pub strtok_last : (delims w : Bytes) → w ≢ [] → Lacks delims w → strtok w delims ≡ w ∷ []
unfolding strtok
strtok_last delims w h k =
    ap (λ s. cut delims s []) (sym (append-nil w)) ∙ cut-append delims w [] [] k ∙ flush_word w h

abbrev pub LacksNewline : Bytes → Type 0
LacksNewline = All (λ c. (c == 10) ≡ false)

fill_buffers_line :
    (size : ℕ) (body rest : Bytes) (left : ℕ) (cur : Bytes)
    → LacksNewline body
    → length body < left
    → fill_buffers size (body ++ (10 ∷ rest)) left cur
      ≡ (cur ++ (body ++ (10 ∷ []))) ∷ fill_buffers size rest (size - 1) []
unfolding fill_buffers
fill_buffers_line size [] rest left cur h k = refl
fill_buffers_line size (c ∷ body) rest left cur (e, h) k =
    rw (short, fill_buffers)
      (fill_buffers_line size body rest (left - 1) (cur ++ (c ∷ [])) h (omega arith)
        ∙ ap (λ l. l ∷ fill_buffers size rest (size - 1) [])
            (append_assoc cur (c ∷ []) (body ++ (10 ∷ []))))
  where
    short : (c == 10 || left == 1) ≡ false
    short = ground arith

-- A line that fits the buffer with its newline and the zero fills the first buffer alone.
pub fgets_all_line :
    (size : ℕ) (body rest : Bytes)
    → LacksNewline body
    → length body + 1 < size
    → fgets_all size (body ++ (10 ∷ rest)) ≡ (body ++ (10 ∷ [])) ∷ fgets_all size rest
unfolding fgets_all
fgets_all_line size body rest h k = fill_buffers_line size body rest (size - 1) [] h (omega arith)
