-- ===== src/Mount/Fstab.antt =====
-- src/mount.c: `update_according_fstab`.
pub mod Laws
pub mod Mounts
use util_ironclad.Base.{
  ℕ, ℤ, pos, Bool, true, false, none, some, List, [], ◌∷◌, ◌++◌, ◌&&◌, ◌==◌, ltb, if◌then◌else◌,
  length, drop,
}
use util_ironclad.Libc.Text.{Bytes, codes, strncmp_eq, strtok, fgets_all}
use util_ironclad.Run.{Run, put, stderr, perror, return, undefined, ask, ◌>>=◌, ◌>>◌}
use util_ironclad.Mount.Kinds.{Constants, string_to_type}
use util_ironclad.Mount.Flags.{fstab_flags}
use util_ironclad.Mount.System.{System, Call, read_fstab, mount}
use util_ironclad.Mount.Devices.{get_path_from_uuid}

-- The bytes at which `%s` of `sscanf` ends a word.
abbrev pub spaces : Bytes
spaces = 32 ∷ 9 ∷ 10 ∷ 11 ∷ 12 ∷ 13 ∷ []

pub record Entry : Type 0 where
  pub source : Bytes
  pub target : Bytes
  pub fs : Bytes
  pub options : Bytes

-- What becomes of a buffer: it is passed over, it ends the loop, a word is written past its array, or
-- it is an entry.
pub data Line : Type 0 where
  skip : Line
  break : Line
  overrun : Line
  entry : Entry → Line

-- Whether the words that `sscanf` stores fit their arrays, of which the sizes are given. The program
-- does not test this: a longer word is written past its array, which has no defined result.
unfoldable pub words_fit : List Bytes → List ℕ → Bool
words_fit [] sizes = true
words_fit (w ∷ words) [] = true
words_fit (w ∷ words) (size ∷ sizes) = ltb (length w) size && words_fit words sizes

unfoldable pub line_of_words : Bytes → List Bytes → Line
line_of_words buffer (source ∷ target ∷ fs ∷ options ∷ dump ∷ pass ∷ more) =
    entry (record { source = source; target = target; fs = fs; options = options })
line_of_words buffer _ = if length buffer == 1 then skip else break

-- The arrays are `source[60]`, `target[30]`, `fs[30]`, `options[30]`, `dump[10]` and `pass[10]`.
abbrev pub sizes : List ℕ
sizes = 60 ∷ 30 ∷ 30 ∷ 30 ∷ 10 ∷ 10 ∷ []

unfoldable pub read_words : Bytes → List Bytes → Line
unfolding words_fit line_of_words
read_words buffer words = if words_fit words sizes then line_of_words buffer words else overrun

unfoldable pub is_comment : Bytes → Bool
is_comment [] = false
is_comment (c ∷ s) = c == b'#'

unfoldable pub read_line : Bytes → Line
unfolding is_comment read_words strtok
read_line buffer = if is_comment buffer then skip else read_words buffer (strtok buffer spaces)

module _ (k : Constants) (sys : System) where
  unfoldable pub mount_entry : Entry → Run Call (Unit {0})
  mount_entry e =
      let flags = fstab_flags k (strtok e.options (codes " , ")) 0 in
      let type = string_to_type k e.fs in
      if strncmp_eq e.source (codes "UUID=") 5
      then get_path_from_uuid sys (drop 5 e.source) >>= (λ device_path. elim device_path [
        | none ↦ put (
            stderr (codes "mount: did not find device " ++ (drop 5 e.source ++ codes " by UUID\n")))
        | some path ↦
            ask (mount path e.target type flags) (sys.mounts path e.target type flags)
            >>= (λ _. return tt)
      ])
      else (ask (mount e.source e.target type flags) (sys.mounts e.source e.target type flags)
          >>= (λ _. return tt))

  unfoldable pub mount_lines : List Bytes → Run Call (Unit {0})
  mount_lines [] = return tt
  mount_lines (buffer ∷ lines) = elim (read_line buffer) [
    | skip ↦ mount_lines lines
    | break ↦ return tt
    | overrun ↦ undefined
    | entry e ↦ do mount_entry e; mount_lines lines
  ]

  unfoldable pub update_according_fstab : Run Call ℤ
  update_according_fstab = do
    fstab ← ask read_fstab sys.fstab
    elim fstab [
      | none ↦ do put (perror (codes "mount: could not open fstab")); return (pos 1)
      | some text ↦ do mount_lines (fgets_all 150 text); return (pos 0)
    ]
