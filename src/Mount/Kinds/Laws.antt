-- ===== src/Mount/Kinds/Laws.antt =====
-- The names of file systems in src/mount.c, read and printed.
use util_ironclad.Base.{Bool, true, false, ◌||◌, some, if◌then◌else◌, ◌≡◌, ◌≢◌, refl, arith, ◌++◌}
use util_ironclad.Libc.Text.{Bytes, codes, strncmp_eq}
use util_ironclad.Libc.Text.Laws.{strncmp_eq_longer, strncmp_eq-append}
use util_ironclad.Mount.Kinds.{Constants, string_to_type, type_to_string}

-- The header gives the three kinds different numbers, none of them 0.
pub record HasKinds (k : Constants) : Type 0 where
  pub ext_ne_zero : k.mnt_ext ≢ 0
  pub fat_ne_zero : k.mnt_fat ≢ 0
  pub ext_ne_fat : k.mnt_ext ≢ k.mnt_fat
  pub dev_ne_ext : k.mnt_dev ≢ k.mnt_ext
  pub dev_ne_fat : k.mnt_dev ≢ k.mnt_fat

ext_longer :
    (t : Bytes)
    → (strncmp_eq t (codes "ext2") 4 ≡ true → strncmp_eq t (codes "ext") 3 ≡ true)
      × (strncmp_eq t (codes "ext3") 4 ≡ true → strncmp_eq t (codes "ext") 3 ≡ true)
      × (strncmp_eq t (codes "ext4") 4 ≡ true → strncmp_eq t (codes "ext") 3 ≡ true)
unfolding codes
ext_longer t = (
  strncmp_eq_longer t (codes "ext") (codes "2"),
  strncmp_eq_longer t (codes "ext") (codes "3"),
  strncmp_eq_longer t (codes "ext") (codes "4"),
)

fat_longer :
    (t : Bytes)
    → (strncmp_eq t (codes "fat12") 5 ≡ true → strncmp_eq t (codes "fat") 3 ≡ true)
      × (strncmp_eq t (codes "fat16") 5 ≡ true → strncmp_eq t (codes "fat") 3 ≡ true)
      × (strncmp_eq t (codes "fat32") 5 ≡ true → strncmp_eq t (codes "fat") 3 ≡ true)
unfolding codes
fat_longer t = (
  strncmp_eq_longer t (codes "fat") (codes "12"),
  strncmp_eq_longer t (codes "fat") (codes "16"),
  strncmp_eq_longer t (codes "fat") (codes "32"),
)

absorb :
    (a b c d : Bool)
    → (b ≡ true → a ≡ true)
    → (c ≡ true → a ≡ true)
    → (d ≡ true → a ≡ true)
    → a || b || c || d ≡ a
absorb a b c d hb hc hd = ground arith

-- Only the first three bytes are looked at: the longer names change nothing.
pub string_to_type_lem :
    (k : Constants) (t : Bytes)
    → string_to_type k t ≡ (
        if strncmp_eq t (codes "ext") 3
        then k.mnt_ext
        else if strncmp_eq t (codes "fat") 3
        then k.mnt_fat
        else 0)
unfolding string_to_type
string_to_type_lem k t =
    let (e2, e3, e4) = ext_longer t in
    let (f2, f3, f4) = fat_longer t in rw (absorb _ _ _ _ e2 e3 e4, absorb _ _ _ _ f2 f3 f4)

ext_front : (t rest : Bytes) → t ≡ codes "ext" ++ rest → strncmp_eq t (codes "ext") 3 ≡ true
unfolding codes
ext_front t rest e = rw e (strncmp_eq-append (codes "ext") rest)

fat_front : (t rest : Bytes) → t ≡ codes "fat" ++ rest → strncmp_eq t (codes "fat") 3 ≡ true
unfolding codes
fat_front t rest e = rw e (strncmp_eq-append (codes "fat") rest)

fat_not_ext : (t rest : Bytes) → t ≡ codes "fat" ++ rest → strncmp_eq t (codes "ext") 3 ≡ false
unfolding codes strncmp_eq
fat_not_ext t rest e = rw e

-- Where the kinds have different numbers, every name that begins with "ext" is read as a kind that is
-- printed as "ext", and every name that begins with "fat" as one that is printed as "fat".
pub type_to_string-string_to_type :
    (k : Constants) (rest : Bytes)
    → HasKinds k
    → (type_to_string k (string_to_type k (codes "ext" ++ rest)) ≡ some (codes "ext"))
      × (type_to_string k (string_to_type k (codes "fat" ++ rest)) ≡ some (codes "fat"))
unfolding type_to_string
type_to_string-string_to_type k rest h = (
  rw (string_to_type_lem, ext_front _ rest refl) (ground arith),
  rw (string_to_type_lem, fat_not_ext _ rest refl, fat_front _ rest refl) (ground arith),
)
