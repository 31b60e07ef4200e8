-- ===== src/Mount/Listing/Laws.antt =====
-- The lists of mounts of src/mount.c stay inside the kernel's buffer of five entries.
use util_ironclad.Base.{
  ℕ, zero, suc, ℤ, pos, negsuc, pos_part, ◌≤◌, Bool, false, some, List, [], ◌∷◌, ◌++◌, ◌≡◌, ◌<◌,
  ◌⊎◌, leb, true, refl, arith, length, take, All, inl, inr, read_first-take, Bool-cases,
  Option-cases, if◌then◌else◌,
}
use util_ironclad.Libc.Text.{Bytes}
use util_ironclad.Libc.Format.{prefix}
use util_ironclad.Run.{Log, next, call, ◌>>=◌}
use util_ironclad.Mount.Kinds.{Constants, type_to_string}
use util_ironclad.Mount.System.{System, MountInfo, Call, list_mounts}
use util_ironclad.Mount.Listing.{
  bad_count, array_text, mtab_line, mount_line, print_mtab_lines, print_mount_lines, update_mtab,
  print_kernel_mounts,
}

-- What the code relies on of an element: its kind is one of those that the program has a name for, and
-- its two arrays of 20 bytes end with a zero or are not longer than their lengths say.
pub record IsShown (k : Constants) (m : MountInfo) : Type 0 where
  pub named : (m.type ≡ k.mnt_ext) ⊎ ((m.type ≡ k.mnt_fat) ⊎ (m.type ≡ k.mnt_dev))
  pub source_ends : (length m.source < 20) ⊎ (m.source_length ≤ 20)
  pub location_ends : (length m.location < 20) ⊎ (m.location_length ≤ 20)

-- The status for a count: 0 for at most the five elements that the buffer has, and for the codes of
-- errors but -1.
abbrev pub status_of : ℤ → ℤ
status_of (pos n) = if leb n 5 then pos 0 else pos 1
status_of (negsuc zero) = pos 1
status_of (negsuc (suc n)) = pos 0

status_of-bad : (ret : ℤ) → bad_count ret ≡ true → status_of ret ≡ pos 1
unfolding bad_count
status_of-bad (pos n) h = ground arith
status_of-bad (negsuc zero) h = refl
status_of-bad (negsuc (suc n)) h = ground arith

good_count : (ret : ℤ) → bad_count ret ≡ false → (pos_part ret ≤ 5) × (status_of ret ≡ pos 0)
unfolding bad_count
good_count (pos n) h = (ground arith, ground arith)
good_count (negsuc zero) h = absurd (ground arith)
good_count (negsuc (suc n)) h = (omega arith, refl)

array_text_ends :
    (len : ℕ) (s : Bytes)
    → (length s < 20) ⊎ (len ≤ 20)
    → (text : Bytes) × (array_text len s ≡ some text)
unfolding array_text
array_text_ends len s h = (prefix len s, ground arith)

module _ (k : Constants) where
  type_to_string-named :
      (type : ℕ)
      → (type ≡ k.mnt_ext) ⊎ ((type ≡ k.mnt_fat) ⊎ (type ≡ k.mnt_dev))
      → (text : Bytes) × (type_to_string k type ≡ some text)
  unfolding type_to_string
  type_to_string-named type h = elim (Option-cases (type_to_string k type)) [
    | inl e ↦ absurd (ground arith)
    | inr e ↦ e
  ]

  print_mount_lines_done :
      (mounts : List MountInfo) (log : Log Call)
      → All (IsShown k) mounts
      → (print_mount_lines k mounts log).0 ≡ next tt
  unfolding print_mount_lines mount_line
  print_mount_lines_done [] log h = refl
  print_mount_lines_done (m ∷ mounts) log (h, hs) =
      let (source, s) = array_text_ends m.source_length m.source h.source_ends in
      let (location, l) = array_text_ends m.location_length m.location h.location_ends in
      let (type, t) = type_to_string-named m.type h.named in
      rw (s, l, t, print_mount_lines) (print_mount_lines_done mounts _ hs)

  print_mtab_lines_done :
      (mounts : List MountInfo) (log : Log Call)
      → All (IsShown k) mounts
      → (print_mtab_lines k mounts log).0 ≡ next tt
  unfolding print_mtab_lines mtab_line
  print_mtab_lines_done [] log h = refl
  print_mtab_lines_done (m ∷ mounts) log (h, hs) =
      let (source, s) = array_text_ends m.source_length m.source h.source_ends in
      let (location, l) = array_text_ends m.location_length m.location h.location_ends in
      let (type, t) = type_to_string-named m.type h.named in
      rw (s, l, t, print_mtab_lines) (print_mtab_lines_done mounts _ hs)

if-same : (b : Bool) → next (pos 1) ≡ next (if b then pos 1 else pos 1)
if-same b = ground arith

-- With a buffer of five elements, of which those that the kernel counts have a kind with a name and
-- arrays that end, neither list reads past the buffer or an array or prints a null pointer:
-- `print_kernel_mounts` comes back with 1 for a count of -1 or above 5 and with 0 for any other, and
-- `update_mtab` does so too, but for the 1 where /etc/mtab does not open.
pub listing_statuses :
    (k : Constants) (sys : System) (log : Log Call)
    → length (sys.lists log).1 ≡ 5
    → All (IsShown k) (take (pos_part (sys.lists log).0) (sys.lists log).1)
    → ((print_kernel_mounts k sys log).0 ≡ next (status_of (sys.lists log).0))
      × ((update_mtab k sys log).0
          ≡ next (
              if sys.mtab_opens (log ++ (call list_mounts ∷ []))
              then status_of (sys.lists log).0
              else pos 1))
unfolding print_kernel_mounts update_mtab
listing_statuses k sys log five shown = elim (Bool-cases (bad_count (sys.lists log).0)) [
  | inl e ↦ (
    rw (e, print_kernel_mounts, ◌>>=◌, status_of-bad _ e) refl,
    rw (e, update_mtab, ◌>>=◌, status_of-bad _ e)
        (if-same (sys.mtab_opens (log ++ (call list_mounts ∷ [])))),
  )
  | inr e ↦
      let (few, zero_status) = good_count (sys.lists log).0 e in
      let r =
        read_first-take (pos_part (sys.lists log).0) (sys.lists log).1 (omega (arith, few, five)) in
      (
        rw (
          e,
          print_kernel_mounts,
          ◌>>=◌,
          r,
          print_mount_lines_done k _ (log ++ (call list_mounts ∷ [])) shown,
          zero_status,
        ),
        elim (Bool-cases (sys.mtab_opens (log ++ (call list_mounts ∷ [])))) [
          | inl o ↦ rw (e, update_mtab, ◌>>=◌, o, r, print_mtab_lines_done k _ _ shown, zero_status)
          | inr o ↦ rw (e, update_mtab, ◌>>=◌, o)
        ],
      )
]
