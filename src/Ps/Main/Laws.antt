-- ===== src/Ps/Main/Laws.antt =====
-- The loops of src/ps.c stay inside the kernel's buffers of fifty entries.
use util_ironclad.Base.{
  ℤ, pos, negsuc, pos_part, ◌≤◌, false, none, some, List, if◌then◌else◌, ◌≡◌, arith, length, take,
  read_first-take, Bool-cases, inl, inr,
}
use util_ironclad.Ps.Main.{bad_count, entries}

good_count : (ret : ℤ) → bad_count ret ≡ false → pos_part ret ≤ 50
unfolding bad_count
good_count (pos n) h = ground arith
good_count (negsuc n) h = ground arith

-- With a buffer of fifty entries, a count of -1 or above 50 ends the run, and any other count gives as
-- many of the entries: no list reads past its buffer.
pub entries_lem :
    {A : Type 0} (ret : ℤ) (buffer : List A)
    → length buffer ≡ 50
    → entries (ret, buffer)
      ≡ (if bad_count ret then none else some (some (take (pos_part ret) buffer)))
unfolding entries
entries_lem ret buffer fifty = elim (Bool-cases (bad_count ret)) [
  | inl e ↦ rw e
  | inr e ↦ rw (e, read_first-take (pos_part ret) buffer (omega (arith, good_count ret e)))
]
