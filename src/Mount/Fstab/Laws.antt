-- ===== src/Mount/Fstab/Laws.antt =====
-- The lines of the table of file systems, as src/mount.c reads them.
use util_ironclad.Base.{
  ℕ, ◌<◌, true, false, List, [], ◌∷◌, ◌++◌, ◌≡◌, ◌≢◌, refl, ◌∙◌, ap, arith, length, sym, map,
  All-append, length-append, append_assoc, append-nil,
}
use util_ironclad.Libc.Text.{Bytes, contains, strtok, fgets_all}
use util_ironclad.Libc.Text.Laws.{Lacks, LacksNewline, strtok_word, fgets_all_line}
use util_ironclad.Mount.Fstab.{spaces, sizes, Entry, entry, words_fit, is_comment, read_line}

-- An entry that fits the arrays of `update_according_fstab`, each with room for the zero.
pub record Fits (e : Entry) : Type 0 where
  pub source_fits : length e.source < 60
  pub target_fits : length e.target < 30
  pub fs_fits : length e.fs < 30
  pub options_fits : length e.options < 30

-- A word as `%s` reads one.
abbrev pub IsWord : Bytes → Type 0
IsWord w = (w ≢ []) × Lacks spaces w

-- A line of the table, with the two fields that the program does not use.
unfoldable pub format_line : Entry → Bytes → Bytes → Bytes
format_line e dump pass =
    e.source
    ++ (32
        ∷ (e.target
            ++ (32 ∷ (e.fs ++ (32 ∷ (e.options ++ (32 ∷ (dump ++ (32 ∷ (pass ++ (10 ∷ [])))))))))))

word_then :
    (w rest : Bytes) (words : List Bytes) (d : ℕ)
    → IsWord w
    → contains d spaces ≡ true
    → strtok rest spaces ≡ words
    → strtok (w ++ (d ∷ rest)) spaces ≡ w ∷ words
word_then w rest words d (h, k) e g = strtok_word spaces w d rest h k e ∙ ap (λ t. w ∷ t) g

strtok-format_line :
    (e : Entry) (dump pass : Bytes)
    → IsWord e.source
    → IsWord e.target
    → IsWord e.fs
    → IsWord e.options
    → IsWord dump
    → IsWord pass
    → strtok (format_line e dump pass) spaces
      ≡ e.source ∷ e.target ∷ e.fs ∷ e.options ∷ dump ∷ pass ∷ []
unfolding format_line contains
strtok-format_line e dump pass s t f o d p = word_then e.source _ _ 32 s refl (
    word_then e.target _ _ 32 t refl (
      word_then e.fs _ _ 32 f refl (
        word_then e.options _ _ 32 o refl
          (word_then dump _ _ 32 d refl (word_then pass [] [] 10 p refl (unfold strtok in refl))))))

words_fit_entry :
    (e : Entry) (dump pass : Bytes)
    → Fits e
    → length dump < 10
    → length pass < 10
    → words_fit (e.source ∷ e.target ∷ e.fs ∷ e.options ∷ dump ∷ pass ∷ []) sizes ≡ true
unfolding words_fit
words_fit_entry e dump pass h k l = ground arith

comment_front : (w rest : Bytes) → w ≢ [] → is_comment w ≡ false → is_comment (w ++ rest) ≡ false
unfolding is_comment
comment_front [] rest n h = absurd (n refl)
comment_front (c ∷ w) rest n h = h

comment_lem :
    (e : Entry) (dump pass : Bytes)
    → e.source ≢ []
    → is_comment e.source ≡ false
    → is_comment (format_line e dump pass) ≡ false
unfolding format_line
comment_lem e dump pass n c = comment_front e.source _ n c

pub read_formatted :
    (e : Entry) (dump pass : Bytes)
    → Fits e
    → length dump < 10
    → length pass < 10
    → IsWord e.source
    → IsWord e.target
    → IsWord e.fs
    → IsWord e.options
    → IsWord dump
    → IsWord pass
    → is_comment e.source ≡ false
    → read_line (format_line e dump pass) ≡ entry e
unfolding read_line
read_formatted e dump pass h k l s t f o d p c =
    rw
      (
        comment_lem e dump pass s.0 c,
        strtok-format_line e dump pass s t f o d p,
        words_fit_entry e dump pass h k l,
      )
      refl

-- The line before its newline.
body_of : Entry → Bytes → Bytes → Bytes
body_of e dump pass =
    e.source
    ++ (32 ∷ (e.target ++ (32 ∷ (e.fs ++ (32 ∷ (e.options ++ (32 ∷ (dump ++ (32 ∷ pass)))))))))

format_line-body_of :
    (e : Entry) (dump pass rest : Bytes)
    → format_line e dump pass ++ rest ≡ body_of e dump pass ++ (10 ∷ rest)
unfolding format_line body_of
format_line-body_of e dump pass rest = simp append_assoc

no_newline : (w : Bytes) → Lacks spaces w → LacksNewline w
unfolding contains
no_newline [] h = tt
no_newline (c ∷ w) (e, h) = (ground arith, no_newline w h)

word_before : (w rest : Bytes) → IsWord w → LacksNewline rest → LacksNewline (w ++ (32 ∷ rest))
word_before w rest (n, h) k = All-append _ w (32 ∷ rest) (no_newline w h) (refl, k)

pub fgets_all-format_line :
    (e : Entry) (dump pass rest : Bytes)
    → length (format_line e dump pass) < 150
    → IsWord e.source
    → IsWord e.target
    → IsWord e.fs
    → IsWord e.options
    → IsWord dump
    → IsWord pass
    → fgets_all 150 (format_line e dump pass ++ rest) ≡ format_line e dump pass ∷ fgets_all 150 rest
unfolding body_of
fgets_all-format_line e dump pass rest short s t f o d p =
    let whole : format_line e dump pass ≡ body_of e dump pass ++ (10 ∷ []) =
      sym (append-nil (format_line e dump pass)) ∙ format_line-body_of e dump pass [] in
    ap (fgets_all 150) (format_line-body_of e dump pass rest)
    ∙ fgets_all_line 150 (body_of e dump pass) rest
        (word_before e.source _ s (
          word_before e.target _ t (
            word_before e.fs _ f
              (word_before e.options _ o (word_before dump pass d (no_newline pass p.1))))))
        (omega (arith, ap length whole, length-append (body_of e dump pass) (10 ∷ [])))
    ∙ ap (λ line. line ∷ fgets_all 150 rest) (sym whole)

-- A line that is written from an entry of words that fit, the first of which does not begin with '#',
-- and that has fewer than 150 bytes with its newline, fills one buffer whatever follows it in the file,
-- and that buffer is read as the entry.
pub read_line-format_line :
    (e : Entry) (dump pass rest : Bytes)
    → Fits e
    → length dump < 10
    → length pass < 10
    → length (format_line e dump pass) < 150
    → IsWord e.source
    → IsWord e.target
    → IsWord e.fs
    → IsWord e.options
    → IsWord dump
    → IsWord pass
    → is_comment e.source ≡ false
    → map read_line (fgets_all 150 (format_line e dump pass ++ rest))
      ≡ entry e ∷ map read_line (fgets_all 150 rest)
read_line-format_line e dump pass rest h k l short s t f o d p c =
    ap (map read_line) (fgets_all-format_line e dump pass rest short s t f o d p)
    ∙ ap (λ line. line ∷ map read_line (fgets_all 150 rest))
        (read_formatted e dump pass h k l s t f o d p c)
