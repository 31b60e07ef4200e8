-- ===== src/Strace/Phases.antt =====
-- What the array `infos` of src/strace.c stands for: for each thread, the kind of its next stop. The
-- block `PRINTER` does one step on that view and prints one line.
use util_ironclad.Base.{
  ℕ, suc, List, [], ◌∷◌, ◌++◌, Option, none, some, Bool, true, false, ◌==◌, if◌then◌else◌, ◌≡◌,
  refl, arith, inl, inr, Option-cases, ==_refl,
}
use util_ironclad.Libc.Text.{Bytes}
use util_ironclad.Strace.Print.{Registers}
use util_ironclad.Strace.Threads.{ThreadInfo, Numbers, handled, line, advance, visit, printer}

-- The entry of a thread, and whether the thread's next stop is a call.
unfoldable pub phase? : ℕ → List ThreadInfo → Option Bool
phase? tid [] = none
phase? tid (info ∷ infos) = if info.tid == tid then some info.is_syscall else phase? tid infos

-- A thread that is not listed begins with a call.
unfoldable pub expects : Option Bool → Bool
expects none = true
expects (some b) = b

-- No thread is listed twice.
abbrev pub IsDistinct : List ThreadInfo → Type 0
IsDistinct [] = Unit
IsDistinct (info ∷ infos) = (phase? info.tid infos ≡ none) × IsDistinct infos

-- The array with the entry of the thread replaced.
unfoldable pub replace : ℕ → Bool → List ThreadInfo → List ThreadInfo
replace tid b [] = []
replace tid b (info ∷ infos) =
    if info.tid == tid then record info { is_syscall = b } ∷ infos else info ∷ replace tid b infos

module _ (numbers : Numbers) (tid : ℕ) (state : Registers) where
  visit_absent :
      (infos : List ThreadInfo)
      → phase? tid infos ≡ none
      → visit numbers tid state infos ≡ record { infos = infos; lines = []; found = false }
  unfolding phase? visit
  visit_absent [] h = refl
  visit_absent (info ∷ infos) h = ground (arith, visit_absent infos)

  visit_present :
      (infos : List ThreadInfo) (b : Bool)
      → IsDistinct infos
      → phase? tid infos ≡ some b
      → visit numbers tid state infos ≡ record {
        infos = replace tid (advance numbers state b) infos;
        lines = line numbers tid state b ∷ [];
        found = true;
      }
  unfolding phase? visit replace
  visit_present [] b d h = ground arith
  visit_present (info ∷ infos) b (fresh, d) h =
      ground (arith, visit_present infos b d, visit_absent infos)

abbrev listed : ℕ → Bool → ThreadInfo
listed tid b = record { tid = tid; is_syscall = b }

phase?-append :
    (t tid : ℕ) (b : Bool) (infos : List ThreadInfo)
    → phase? tid infos ≡ none
    → phase? t (infos ++ (listed tid b ∷ [])) ≡ (if t == tid then some b else phase? t infos)
unfolding phase?
phase?-append t tid b [] h = ground arith
phase?-append t tid b (info ∷ infos) h = ground (arith, phase?-append t tid b infos)

phase?-append_self :
    (tid : ℕ) (b : Bool) (infos : List ThreadInfo)
    → phase? tid infos ≡ none
    → phase? tid (infos ++ (listed tid b ∷ [])) ≡ some b
phase?-append_self tid b infos h = rw (phase?-append tid tid b infos h, ==_refl) refl

phase?-replace :
    (t tid : ℕ) (b old : Bool) (infos : List ThreadInfo)
    → phase? tid infos ≡ some old
    → phase? t (replace tid b infos) ≡ (if t == tid then some b else phase? t infos)
unfolding phase? replace
phase?-replace t tid b old [] h = ground arith
phase?-replace t tid b old (info ∷ infos) h = ground (arith, phase?-replace t tid b old infos)

replace-IsDistinct :
    (tid : ℕ) (b old : Bool) (infos : List ThreadInfo)
    → phase? tid infos ≡ some old
    → IsDistinct infos
    → IsDistinct (replace tid b infos)
unfolding phase? replace
replace-IsDistinct tid b old [] h d = tt
replace-IsDistinct tid b old (info ∷ infos) h (fresh, d) =
    ground (arith, replace-IsDistinct tid b old infos, phase?-replace info.tid tid b old infos)

append-IsDistinct :
    (tid : ℕ) (b : Bool) (infos : List ThreadInfo)
    → phase? tid infos ≡ none
    → IsDistinct infos
    → IsDistinct (infos ++ (listed tid b ∷ []))
unfolding phase?
append-IsDistinct tid b [] h d = (refl, tt)
append-IsDistinct tid b (info ∷ infos) h (fresh, d) =
    ground (arith, append-IsDistinct tid b infos, phase?-append info.tid tid b infos)

module _ (numbers : Numbers) where
  -- The array after a stop: the thread's entry is advanced, or is added already advanced.
  unfoldable pub settle : ℕ → Registers → List ThreadInfo → List ThreadInfo
  settle tid state infos = elim (phase? tid infos) [
    | none ↦ infos ++ (listed tid (advance numbers state true) ∷ [])
    | some b ↦ replace tid (advance numbers state b) infos
  ]

  replace_last :
      (tid : ℕ) (b c : Bool) (infos : List ThreadInfo)
      → phase? tid infos ≡ none
      → replace tid c (infos ++ (listed tid b ∷ [])) ≡ infos ++ (listed tid c ∷ [])
  unfolding replace phase?
  replace_last tid b c [] h = ground arith
  replace_last tid b c (info ∷ infos) h = ground (arith, replace_last tid b c infos)

  -- From an array that lists no thread twice, and where `realloc` succeeds, a stop is handled in at
  -- most two entries of the block `PRINTER`: one line is printed, of the kind that the thread's
  -- phase says, and the array is the settled one.
  pub printer_lem :
      (fuel tid : ℕ) (state : Registers) (infos : List ThreadInfo)
      → IsDistinct infos
      → printer numbers (suc (suc fuel)) true tid state infos
        ≡ handled
            (settle tid state infos)
            (line numbers tid state (expects (phase? tid infos)) ∷ [])
  unfolding printer settle expects
  printer_lem fuel tid state infos d = elim (Option-cases (phase? tid infos)) [
    | inl e ↦
        let d' = append-IsDistinct tid true infos e d in
        rw (
          visit_absent numbers tid state infos e,
          visit_present numbers tid state (infos ++ (listed tid true ∷ [])) true d'
              (phase?-append_self tid true infos e),
          replace_last tid true (advance numbers state true) infos e,
          e,
          settle,
        )
    | inr (b, e) ↦ rw (visit_present numbers tid state infos b d e, e, settle)
  ]

  pub settle-IsDistinct :
      (tid : ℕ) (state : Registers) (infos : List ThreadInfo)
      → IsDistinct infos
      → IsDistinct (settle tid state infos)
  unfolding settle
  settle-IsDistinct tid state infos d = elim (Option-cases (phase? tid infos)) [
    | inl e ↦ rw (e, settle) (append-IsDistinct tid (advance numbers state true) infos e d)
    | inr (b, e) ↦ rw (e, settle) (replace-IsDistinct tid (advance numbers state b) b infos e d)
  ]

  -- The array that a stop leaves has the stopped thread in its next phase, and every other thread
  -- in the phase it had.
  pub phase?-settle :
      (t tid : ℕ) (state : Registers) (infos : List ThreadInfo)
      → phase? t (settle tid state infos) ≡ (
          if t == tid
          then some (advance numbers state (expects (phase? tid infos)))
          else phase? t infos)
  unfolding settle expects
  phase?-settle t tid state infos = elim (Option-cases (phase? tid infos)) [
    | inl e ↦ rw (e, settle, expects) (phase?-append t tid (advance numbers state true) infos e)
    | inr (b, e) ↦
        rw (e, settle, expects) (phase?-replace t tid (advance numbers state b) b infos e)
  ]

  -- From an array that lists no thread twice, and where `realloc` succeeds, two entries of the block
  -- `PRINTER` handle a stop and print one line, and leave an array that again lists no thread twice, in
  -- which the stopped thread is in its next phase and every other thread in the phase it had.
  pub printer-IsDistinct :
      (fuel tid : ℕ) (state : Registers) (infos : List ThreadInfo)
      → IsDistinct infos
      → (infos' : List ThreadInfo) × (printed : Option Bytes) × (printer numbers
            (suc (suc fuel))
            true
            tid
            state
            infos
          ≡ handled infos' (printed ∷ []))
        × IsDistinct infos'
        × ((t : ℕ)
            → phase? t infos' ≡ (
                if t == tid
                then some (advance numbers state (expects (phase? tid infos)))
                else phase? t infos))
  printer-IsDistinct fuel tid state infos d = (
    settle tid state infos,
    line numbers tid state (expects (phase? tid infos)),
    printer_lem fuel tid state infos d,
    settle-IsDistinct tid state infos d,
    λ t. phase?-settle t tid state infos,
  )
