-- ===== src/Ipcrm/Laws.antt =====
-- Which segment src/ipcrm.c removes.
use util_ironclad.Base.{
  ℤ, pos, false, none, some, List, [], ◌∷◌, ◌++◌, ◌==ℤ◌, if◌then◌else◌, ◌≡◌, refl, arith, All,
  Option-cases, inl, inr, append_assoc, append-nil, ◌∙◌, ap, sym,
}
use util_ironclad.Libc.Text.{Bytes, codes, scan_int}
use util_ironclad.Libc.Format.{dec_ℤ}
use util_ironclad.Libc.Getopt.{getopt}
use util_ironclad.Run.{Log, next, exit, call, stderr, while_getopt, bind_next, bind_first}
use util_ironclad.Ipcrm.{
  Settings, defaults, Call, remove_segment, System, segment_option, on_opt, on_bad, remove_one,
  remove_asked, main,
}

-- `-m` with each of the texts.
unfoldable pub args_of : List Bytes → List Bytes
args_of [] = []
args_of (text ∷ texts) = codes "-m" ∷ text ∷ args_of texts

-- A message for each of the texts that is no number.
unfoldable pub complaints : List Bytes → Log Call
complaints [] = []
complaints (text ∷ texts) =
    let rest = complaints texts in
    elim (scan_int text) [
      | none ↦ stderr (codes "ipcrm: '" ++ (text ++ codes "' is not a valid shmid")) ∷ rest
      | some id ↦ rest
    ]

-- The number that is read last, from `id` on.
unfoldable last_id : List Bytes → ℤ → ℤ
last_id [] id = id
last_id (text ∷ texts) id = elim (scan_int text) [
  | none ↦ last_id texts id
  | some n ↦ last_id texts n
]

abbrev with_id : Settings → ℤ → Settings
with_id s id = record s { remove_smhid = id }

last_id-none :
    (texts : List Bytes) (id : ℤ) → All (λ text. scan_int text ≡ none) texts → last_id texts id ≡ id
unfolding last_id
last_id-none [] id h = refl
last_id-none (text ∷ texts) id (e, h) = rw (last_id, e) (last_id-none texts id h)

last_id-found :
    (before : List Bytes) (text : Bytes) (after : List Bytes) (old id : ℤ)
    → scan_int text ≡ some id
    → All (λ t. scan_int t ≡ none) after
    → last_id (before ++ (text ∷ after)) old ≡ id
unfolding last_id
last_id-found [] text after old id e h = rw (last_id, e) (last_id-none after id h)
last_id-found (t ∷ before) text after old id e h = elim (Option-cases (scan_int t)) [
  | inl n ↦ rw (last_id, n) (last_id-found before text after old id e h)
  | inr (m, n) ↦ rw (last_id, n) (last_id-found before text after m id e h)
]

last_id-first :
    (text : Bytes) (texts : List Bytes) (id : ℤ)
    → last_id texts (last_id (text ∷ []) id) ≡ last_id (text ∷ texts) id
unfolding last_id
last_id-first text texts id = elim (Option-cases (scan_int text)) [
  | inl e ↦ rw (e, last_id) refl
  | inr (n, e) ↦ rw (e, last_id) refl
]

complaints-first :
    (text : Bytes) (texts : List Bytes)
    → complaints (text ∷ []) ++ complaints texts ≡ complaints (text ∷ texts)
unfolding complaints
complaints-first text texts = elim (Option-cases (scan_int text)) [
  | inl e ↦ rw (e, complaints) refl
  | inr (n, e) ↦ rw (e, complaints) refl
]

module _ (package_version : Bytes) where
  segment_option_lem :
      (text : Bytes) (s : Settings) (log : Log Call)
      → on_opt package_version b'm' text s log
        ≡ (next (with_id s (last_id (text ∷ []) s.remove_smhid)), log ++ complaints (text ∷ []))
  unfolding on_opt segment_option last_id complaints
  segment_option_lem text s log = elim (Option-cases (scan_int text)) [
    | inl e ↦ rw (e, on_opt, segment_option, last_id, complaints) refl
    | inr (id, e) ↦
        rw (e, on_opt, segment_option, last_id, complaints)
          (ap (λ l. (next (with_id s id), l)) (sym (append-nil log)))
  ]

  loop_lem :
      (texts more : List Bytes) (s : Settings) (log : Log Call)
      → while_getopt
          (on_opt package_version)
          on_bad
          (getopt (codes "hvm:") (args_of texts ++ more))
          s
          log
        ≡ while_getopt
            (on_opt package_version)
            on_bad
            (getopt (codes "hvm:") more)
            (with_id s (last_id texts s.remove_smhid))
            (log ++ complaints texts)
  unfolding while_getopt getopt codes args_of last_id complaints on_bad on_opt
  loop_lem [] more s log =
      ap (λ l. while_getopt (on_opt package_version) on_bad (getopt (codes "hvm:") more) s l)
        (sym (append-nil log))
  loop_lem (text ∷ texts) more s log =
      let id : ℤ = last_id (text ∷ []) s.remove_smhid in
      bind_next {C = Call} {A = Settings} {B = Settings × List Bytes}
        (on_opt package_version b'm' text s)
        (while_getopt (on_opt package_version) on_bad
          (getopt (codes "hvm:") (args_of texts ++ more)))
        {log = log} {log' = log ++ complaints (text ∷ [])} (segment_option_lem text s log)
      ∙ loop_lem texts more (with_id s id) (log ++ complaints (text ∷ []))
      ∙ rw
          (
            append_assoc log (complaints (text ∷ [])) (complaints texts),
            complaints-first text texts,
            last_id-first text texts s.remove_smhid,
          )
          refl

  all_lem :
      (texts : List Bytes) (s : Settings) (log : Log Call)
      → while_getopt (on_opt package_version) on_bad (getopt (codes "hvm:") (args_of texts)) s log
        ≡ (next (with_id s (last_id texts s.remove_smhid), []), log ++ complaints texts)
  unfolding while_getopt getopt
  all_lem texts s log =
      ap (λ a. while_getopt (on_opt package_version) on_bad (getopt (codes "hvm:") a) s log)
        (sym (append-nil (args_of texts)))
      ∙ loop_lem texts [] s log

module _ (sys : System) (package_version : Bytes) where
  removed :
      (s : Settings) (log : Log Call)
      → s.do_all ≡ false
      → (s.remove_smhid ==ℤ pos 0) ≡ false
      → remove_asked sys s log ≡ (
          if sys.remove_fails s.remove_smhid log
          then (
            exit (pos 1),
            (log ++ (call (remove_segment s.remove_smhid) ∷ []))
                ++ (stderr (
                      codes "ipcrm: Could not mark smhid "
                      ++ (dec_ℤ s.remove_smhid ++ codes " for deletion\n"))
                    ∷ []),
          )
          else (exit (pos 0), log ++ (call (remove_segment s.remove_smhid) ∷ [])))
  unfolding remove_asked remove_one
  removed s log h n = ground arith

  -- For arguments that are options -m with a text each: the last text that is a number names the segment,
  -- whatever the others before it name. Unless that number is 0 it is the only segment that is asked for,
  -- after a message for each text that is no number, and the status is 0, or 1 with a message where the
  -- request fails. An option -a after them, in spite of the usage, ends the run with status 1 as an
  -- unknown option before any segment is asked for.
  pub ipcrm_last :
      (before : List Bytes) (text : Bytes) (after : List Bytes) (id : ℤ) (more : List Bytes)
      → scan_int text ≡ some id
      → All (λ t. scan_int t ≡ none) after
      → (id ==ℤ pos 0) ≡ false
      → (main sys package_version (args_of (before ++ (text ∷ after))) [] ≡ (
          let said = complaints (before ++ (text ∷ after)) in
          if sys.remove_fails id said
          then (
            exit (pos 1),
            (said ++ (call (remove_segment id) ∷ []))
                ++ (stderr (
                      codes "ipcrm: Could not mark smhid " ++ (dec_ℤ id ++ codes " for deletion\n"))
                    ∷ []),
          )
          else (exit (pos 0), said ++ (call (remove_segment id) ∷ []))))
        × (main sys package_version (args_of (before ++ (text ∷ after)) ++ (codes "-a" ∷ more)) []
            ≡ (
              exit (pos 1),
              complaints (before ++ (text ∷ after))
                  ++ (stderr (codes "ipcrm: Unknown option 'a'\n") ∷ []),
            ))
  unfolding main while_getopt getopt codes on_bad
  ipcrm_last before text after id more e h n =
      let texts : List Bytes = before ++ (text ∷ after) in
      let found : last_id texts (pos 0) ≡ id = last_id-found before text after (pos 0) id e h in
      (
        bind_first {C = Call} {A = Settings × List Bytes} {B = Unit {0}}
              (while_getopt (on_opt package_version) on_bad (getopt (codes "hvm:") (args_of texts))
                defaults)
              (λ l. (next (with_id defaults id, []), complaints texts)) (λ p. remove_asked sys p.0)
              [] (all_lem package_version texts defaults [] ∙ rw found refl)
            ∙ removed (with_id defaults id) (complaints texts) refl n,
        bind_first {C = Call} {A = Settings × List Bytes} {B = Unit {0}}
            (while_getopt (on_opt package_version) on_bad
              (getopt (codes "hvm:") (args_of texts ++ (codes "-a" ∷ more))) defaults)
            (λ l. (
              exit (pos 1),
              complaints texts ++ (stderr (codes "ipcrm: Unknown option 'a'\n") ∷ []),
            ))
            (λ p. remove_asked sys p.0) []
            (loop_lem package_version texts (codes "-a" ∷ more) defaults []),
      )
