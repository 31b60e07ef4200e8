-- ===== src/Tests/Fstab.antt =====
-- A table of file systems that src/mount.c reads.
use util_ironclad.Base.{pos, false, some, [], ◌∷◌, ◌++◌, ◌≡◌, refl, arith, map, length, ◌<◌}
use util_ironclad.Libc.Text.{codes, strncmp_eq, contains, fgets_all}
use util_ironclad.Run.{call, stop, ◌>>◌}
use util_ironclad.Mount.System.{System, read_fstab}
use util_ironclad.Mount.Fstab.{Entry, entry, is_comment, read_line}
use util_ironclad.Mount.Fstab.Laws.{Fits, IsWord, format_line, read_line-format_line}
use util_ironclad.Mount.Fstab.Mounts.{Row, IsPlain, format_rows, mount_of, fstab_mounts}
use util_ironclad.Mount.Listing.{update_mtab}
use util_ironclad.Mount.Main.{main}
use util_ironclad.Tests.Mount.{k, sys}

abbrev root_entry : Entry
root_entry = record {
  source = b's' ∷ [];
  target = b'/' ∷ [];
  fs = b'e' ∷ [];
  options = b'r' ∷ b'o' ∷ [];
}

root_entry-Fits : Fits root_entry
root_entry-Fits = record {
  source_fits = omega arith;
  target_fits = omega arith;
  fs_fits = omega arith;
  options_fits = omega arith;
}

source-IsWord : IsWord root_entry.source
unfolding contains
source-IsWord = (λ e. ground arith, (refl, tt))

target-IsWord : IsWord root_entry.target
unfolding contains
target-IsWord = (λ e. ground arith, (refl, tt))

fs-IsWord : IsWord root_entry.fs
unfolding contains
fs-IsWord = (λ e. ground arith, (refl, tt))

options-IsWord : IsWord root_entry.options
unfolding contains
options-IsWord = (λ e. ground arith, (refl, (refl, tt)))

zero-IsWord : IsWord (b'0' ∷ [])
unfolding contains
zero-IsWord = (λ e. ground arith, (refl, tt))

not_comment : is_comment root_entry.source ≡ false
unfolding is_comment
not_comment = refl

line_short : length (format_line root_entry (b'0' ∷ []) (b'0' ∷ [])) < 150
unfolding format_line
line_short = omega arith

fstab_line_example :
    map read_line (fgets_all 150 (format_line root_entry (b'0' ∷ []) (b'0' ∷ []) ++ (10 ∷ [])))
    ≡ entry root_entry ∷ map read_line (fgets_all 150 (10 ∷ []))
fstab_line_example =
    read_line-format_line root_entry (b'0' ∷ []) (b'0' ∷ []) (10 ∷ []) root_entry-Fits (omega arith)
      (omega arith) line_short source-IsWord target-IsWord fs-IsWord options-IsWord zero-IsWord
      zero-IsWord not_comment

abbrev root_row : Row
root_row = record { entry = root_entry; dump = b'0' ∷ []; pass = b'0' ∷ [] }

by_path : strncmp_eq root_entry.source (codes "UUID=") 5 ≡ false
unfolding strncmp_eq codes
by_path = refl

root_row-IsPlain : IsPlain root_row
root_row-IsPlain = record {
  entry_fits = root_entry-Fits;
  dump_fits = omega arith;
  pass_fits = omega arith;
  line_fits = line_short;
  source_word = source-IsWord;
  target_word = target-IsWord;
  fs_word = fs-IsWord;
  options_word = options-IsWord;
  dump_word = zero-IsWord;
  pass_word = zero-IsWord;
  no_comment = not_comment;
  by_path = by_path;
}

abbrev with_table : System
with_table = record sys { fstab = λ log. some (format_rows (root_row ∷ root_row ∷ [])) }

table_example :
    main k with_table [] (codes "-a" ∷ []) []
    ≡ (update_mtab k with_table >> stop (pos 0))
        (call read_fstab ∷ map (mount_of k) (root_row ∷ root_row ∷ []))
table_example =
    fstab_mounts k with_table [] (root_row ∷ root_row ∷ []) refl
      (root_row-IsPlain, (root_row-IsPlain, tt))
