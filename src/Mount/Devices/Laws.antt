-- ===== src/Mount/Devices/Laws.antt =====
-- What `get_path_from_uuid` of src/mount.c finds.
use util_ironclad.Base.{
  Bool, true, false, Option, none, some, List, [], ◌∷◌, ◌++◌, ◌≡◌, inl, inr, refl, ◌∙◌, sym, ap,
  subst, arith, Bool-cases, Option-cases,
}
use util_ironclad.Libc.Text.{Bytes, str_eq, str_eq→eq}
use util_ironclad.Run.{Log, Step, next, exit, replaced, fault, call}
use util_ironclad.Uuid.{Uuid, uuid_to_string}
use util_ironclad.Uuid.Laws.{InRange, uuid_to_string-injective}
use util_ironclad.Mount.System.{System, Call, read_dev, open_device, device_uuid}
use util_ironclad.Mount.Devices.{is_visible, dev_path, probe, search_dev, get_path_from_uuid}

module _ (sys : System) (searched : Bytes) where
  -- The last event of the run is the query of the device, its answer is a UUID, and the print of that
  -- UUID is the one searched.
  abbrev Answers : Bytes → Log Call → Type 0
  Answers name out =
      (log : Log Call) × (u : Uuid) × (out ≡ log ++ (call (device_uuid (dev_path name)) ∷ []))
      × (sys.uuid_of (dev_path name) log ≡ some u)
      × (str_eq searched (uuid_to_string u) ≡ true)

  -- The name is one of those listed, is visible, and its device answers.
  abbrev Found : Bytes → List Bytes → Log Call → Type 0
  Found name names out =
      (before : List Bytes) × (after : List Bytes) × (names ≡ before ++ (name ∷ after))
      × (is_visible name ≡ true)
      × Answers name out

  probe-Answers :
      (name : Bytes) (log : Log Call)
      → (probe sys searched name log).0 ≡ next (some true)
      → Answers name (probe sys searched name log).1
  unfolding probe
  probe-Answers name log h = elim (Bool-cases (sys.opens (dev_path name) log)) [
    | inl o ↦
        let asked : Log Call = log ++ (call (open_device (dev_path name)) ∷ []) in
        elim (Option-cases (sys.uuid_of (dev_path name) asked)) [
          | inl e ↦ absurd (ground arith)
          | inr (u, e) ↦ (asked, u, rw (o, e, probe) refl, e, ground arith)
        ]
    | inr o ↦ absurd (ground arith)
  ]

  taken :
      (n : Bytes) (names : List Bytes) (log : Log Call)
      → is_visible n ≡ true
      → (probe sys searched n log).0 ≡ next (some true)
      → search_dev sys searched (n ∷ names) log ≡ (next (some n), (probe sys searched n log).1)
  unfolding search_dev probe
  taken n names log v e = rw (v, search_dev, e)

  passed :
      (n : Bytes) (names : List Bytes) (log : Log Call)
      → is_visible n ≡ true
      → (probe sys searched n log).0 ≡ next (some false)
      → search_dev sys searched (n ∷ names) log
        ≡ search_dev sys searched names (probe sys searched n log).1
  unfolding search_dev probe
  passed n names log v e = rw (v, search_dev, e)

  hidden :
      (n : Bytes) (names : List Bytes) (log : Log Call)
      → is_visible n ≡ false
      → search_dev sys searched (n ∷ names) log ≡ search_dev sys searched names log
  unfolding search_dev
  hidden n names log v = rw (v, search_dev)

  later-Found :
      (name n : Bytes) (names : List Bytes) (out : Log Call)
      → Found name names out
      → Found name (n ∷ names) out
  later-Found name n names out (before, after, e, visible, answer) =
      (n ∷ before, after, ap (λ l. n ∷ l) e, visible, answer)

  -- A visible entry at the front, given what holds of the rest.
  visible-Found :
      (n : Bytes) (names : List Bytes) (log : Log Call) (name : Bytes) (s : Step (Option Bool))
      → is_visible n ≡ true
      → (probe sys searched n log).0 ≡ s
      → (search_dev sys searched (n ∷ names) log).0 ≡ next (some name)
      → ((search_dev sys searched names (probe sys searched n log).1).0 ≡ next (some name)
          → Found name names (search_dev sys searched names (probe sys searched n log).1).1)
      → Found name (n ∷ names) (search_dev sys searched (n ∷ names) log).1
  unfolding search_dev
  visible-Found n names log name (next (some true)) v e h ih =
      let same : n ≡ name = ground arith in
      rw (taken n names log v e) (
        subst (λ m. Found m (n ∷ names) (probe sys searched n log).1) same
          ([], names, refl, v, probe-Answers n log e))
  visible-Found n names log name (next (some false)) v e h ih =
      rw (passed n names log v e)
        (later-Found name n names _ (ih (rw (passed n names log v e) at h)))
  visible-Found n names log name (next none) v e h ih = absurd (ground arith)
  visible-Found n names log name (exit status) v e h ih = absurd (ground arith)
  visible-Found n names log name replaced v e h ih = absurd (ground arith)
  visible-Found n names log name fault v e h ih = absurd (ground arith)

  search_dev-Found :
      (names : List Bytes) (log : Log Call) (name : Bytes)
      → (search_dev sys searched names log).0 ≡ next (some name)
      → Found name names (search_dev sys searched names log).1
  search_dev-Found [] log name h = absurd (unfold search_dev in ground arith)
  search_dev-Found (n ∷ names) log name h = elim (Bool-cases (is_visible n)) [
    | inl v ↦
        visible-Found n names log name (probe sys searched n log).0 v refl h
          (search_dev-Found names (probe sys searched n log).1 name)
    | inr v ↦ rw (hidden n names log v) (
        later-Found name n names _
          (search_dev-Found names log name (rw (hidden n names log v) at h)))
  ]

  get_path-Found :
      (log : Log Call) (name : Bytes)
      → (get_path_from_uuid sys searched log).0 ≡ next (some name)
      → (names : List Bytes) × (sys.dev_names log ≡ some names)
        × Found name names (get_path_from_uuid sys searched log).1
  unfolding get_path_from_uuid
  get_path-Found log name h = elim (Option-cases (sys.dev_names log)) [
    | inl e ↦ absurd (ground arith)
    | inr (names, e) ↦
        (names, e, rw e (search_dev-Found names (log ++ (call read_dev ∷ [])) name (rw e at h)))
  ]

-- If the search for the print of a UUID finds a name, then /dev could be listed and the name is one of
-- its visible entries. The last event of the search is the query of that entry's device, and the answer
-- to it was exactly that UUID, where all UUIDs have fields of their widths.
pub get_path_from_uuid_found :
    (sys : System) (v : Uuid) (log : Log Call) (name : Bytes)
    → InRange v
    → ((path : Bytes) (log' : Log Call) (u : Uuid) → sys.uuid_of path log' ≡ some u → InRange u)
    → (get_path_from_uuid sys (uuid_to_string v) log).0 ≡ next (some name)
    → (before : List Bytes) × (after : List Bytes) × (log' : Log Call) × (sys.dev_names log
        ≡ some (before ++ (name ∷ after)))
      × (is_visible name ≡ true)
      × ((get_path_from_uuid sys (uuid_to_string v) log).1
          ≡ log' ++ (call (device_uuid (dev_path name)) ∷ []))
      × (sys.uuid_of (dev_path name) log' ≡ some v)
get_path_from_uuid_found sys v log name r rs h =
    let (names, listed, found) = get_path-Found sys (uuid_to_string v) log name h in
    let (before, after, split, visible, answer) = found in
    let (log', u, last, given, equal) = answer in
    let same =
      uuid_to_string-injective v u r (rs (dev_path name) log' u given)
        (str_eq→eq (uuid_to_string v) (uuid_to_string u) equal) in
    (before, after, log', listed ∙ ap some split, visible, last, given ∙ ap some (sym same))
