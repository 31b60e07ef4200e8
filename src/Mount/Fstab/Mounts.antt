-- ===== src/Mount/Fstab/Mounts.antt =====
-- Which mounts src/mount.c makes for a table of file systems.
use util_ironclad.Base.{
  ◌<◌, ℤ, pos, false, some, List, [], ◌∷◌, ◌++◌, ◌≡◌, ◌∙◌, All, map, length, append-nil,
  append_assoc, sym, refl, if◌then◌else◌,
}
use util_ironclad.Libc.Text.{Bytes, codes, strncmp_eq, strtok, fgets_all}
use util_ironclad.Libc.Getopt.{getopt}
use util_ironclad.Run.{Log, Event, next, call, return, stop, while_getopt, bind_next, ◌>>=◌, ◌>>◌}
use util_ironclad.Mount.Kinds.{Constants}
use util_ironclad.Mount.Kinds.Laws.{string_to_type_lem}
use util_ironclad.Mount.Flags.Options.{flags_asked, fstab_flags_lem}
use util_ironclad.Mount.System.{System, Call, mount, read_fstab}
use util_ironclad.Mount.Fstab.{Entry, is_comment, mount_entry, mount_lines, update_according_fstab}
use util_ironclad.Mount.Fstab.Laws.{
  Fits, IsWord, format_line, fgets_all-format_line, read_formatted,
}
use util_ironclad.Mount.Listing.{update_mtab}
use util_ironclad.Mount.Main.{on_opt, operands, dispatch, finish, main}

-- A line of the table.
pub record Row : Type 0 where
  pub entry : Entry
  pub dump : Bytes
  pub pass : Bytes

abbrev pub format_row : Row → Bytes
format_row r = format_line r.entry r.dump r.pass

-- The table with its lines one after the other.
unfoldable pub format_rows : List Row → Bytes
format_rows [] = []
format_rows (r ∷ rows) = format_row r ++ format_rows rows

-- The line is made of words that fit and fits the buffer, is no comment, and names its device by a path.
pub record IsPlain (r : Row) : Type 0 where
  pub entry_fits : Fits r.entry
  pub dump_fits : length r.dump < 10
  pub pass_fits : length r.pass < 10
  pub line_fits : length (format_row r) < 150
  pub source_word : IsWord r.entry.source
  pub target_word : IsWord r.entry.target
  pub fs_word : IsWord r.entry.fs
  pub options_word : IsWord r.entry.options
  pub dump_word : IsWord r.dump
  pub pass_word : IsWord r.pass
  pub no_comment : is_comment r.entry.source ≡ false
  pub by_path : strncmp_eq r.entry.source (codes "UUID=") 5 ≡ false

-- The mount that the line asks for: the kind is EXT or FAT by the first three bytes of the name, and the
-- flags are those of the options that are on the line.
abbrev pub mount_of : Constants → Row → Event Call
mount_of k r = call (
    mount r.entry.source r.entry.target
      (if strncmp_eq r.entry.fs (codes "ext") 3
        then k.mnt_ext
        else if strncmp_eq r.entry.fs (codes "fat") 3
        then k.mnt_fat
        else 0)
      (flags_asked k (strtok r.entry.options (codes " , "))))

module _ (k : Constants) (sys : System) where
  mount_entry_lem :
      (r : Row) (log : Log Call)
      → IsPlain r
      → mount_entry k sys r.entry log ≡ (next tt, log ++ (mount_of k r ∷ []))
  unfolding mount_entry
  mount_entry_lem r log h =
      rw
        (
          sym (string_to_type_lem k r.entry.fs),
          sym (fstab_flags_lem k (strtok r.entry.options (codes " , "))),
          h.by_path,
        )
        refl

  mount_lines_lem :
      (rows : List Row) (log : Log Call)
      → All IsPlain rows
      → mount_lines k sys (fgets_all 150 (format_rows rows)) log
        ≡ (next tt, log ++ map (mount_of k) rows)
  unfolding mount_lines fgets_all format_rows
  mount_lines_lem [] log h = rw append-nil
  mount_lines_lem (r ∷ rows) log (h, hs) =
      rw
        (
          fgets_all-format_line r.entry r.dump r.pass (format_rows rows) h.line_fits h.source_word
              h.target_word h.fs_word h.options_word h.dump_word h.pass_word,
          mount_lines,
          read_formatted r.entry r.dump r.pass h.entry_fits h.dump_fits h.pass_fits h.source_word
              h.target_word h.fs_word h.options_word h.dump_word h.pass_word h.no_comment,
        )
        (bind_next {C = Call} {A = Unit {0}} {B = Unit {0}} (mount_entry k sys r.entry)
            (λ _. mount_lines k sys (fgets_all 150 (format_rows rows))) (mount_entry_lem r log h)
          ∙ mount_lines_lem rows (log ++ (mount_of k r ∷ [])) hs
          ∙ rw append_assoc)

  update_lem :
      (rows : List Row) (log : Log Call)
      → sys.fstab log ≡ some (format_rows rows)
      → All IsPlain rows
      → update_according_fstab k sys log
        ≡ (next (pos 0), (log ++ (call read_fstab ∷ [])) ++ map (mount_of k) rows)
  unfolding update_according_fstab
  update_lem rows log e h =
      rw (e, update_according_fstab, ◌>>=◌)
        (bind_next {C = Call} {A = Unit {0}} {B = ℤ}
          (mount_lines k sys (fgets_all 150 (format_rows rows))) (λ _. return (pos 0))
          (mount_lines_lem rows (log ++ (call read_fstab ∷ [])) h))

  -- For a table of lines of words that fit, each of which fits the buffer, none a comment and none with a
  -- source by UUID, `mount -a` makes one mount for each line, in their order and whatever fails, as EXT
  -- or FAT by the first three bytes of the kind, and with the flags of those options "ro", "relatime" and
  -- "noatime" that are on the line. The rest of the run is the update of /etc/mtab and status 0.
  pub fstab_mounts :
      (package_version : Bytes) (rows : List Row)
      → sys.fstab [] ≡ some (format_rows rows)
      → All IsPlain rows
      → main k sys package_version (codes "-a" ∷ []) []
        ≡ (update_mtab k sys >> stop (pos 0)) (call read_fstab ∷ map (mount_of k) rows)
  unfolding main while_getopt getopt codes on_opt operands dispatch finish
  fstab_mounts package_version rows e h =
      bind_next {C = Call} {A = ℤ} {B = Unit {0}} (update_according_fstab k sys) (finish k sys)
        {log = []} (update_lem rows [] e h)
