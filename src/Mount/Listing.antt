-- ===== src/Mount/Listing.antt =====
-- src/mount.c: `update_mtab` and `print_kernel_mounts`.
pub mod Laws
use Prim.Native.Nat.{bit_and}
use util_ironclad.Base.{
  ℕ, ℤ, pos, negsuc, pos_part, Bool, true, false, Option, none, some, List, [], ◌∷◌, ◌++◌, ◌||◌,
  ◌==◌, ◌==ℤ◌, gtb_ℤ, if◌then◌else◌, read_first, leb, ltb, length, ◌&&◌,
}
use util_ironclad.Libc.Text.{Bytes, codes}
use util_ironclad.Libc.Format.{prefix}
use util_ironclad.Run.{Run, put, stdout, perror, call, return, undefined, ask, ◌>>=◌, ◌>>◌}
use util_ironclad.Mount.Kinds.{Constants, type_to_string}
use util_ironclad.Mount.System.{System, MountInfo, Call, list_mounts, open_mtab, print_mtab}

-- `ret == -1 || ret > 5`
unfoldable pub bad_count : ℤ → Bool
bad_count ret = ret ==ℤ negsuc 0 || gtb_ℤ ret 5

-- What `%.*s` prints of an array of 20 bytes that is given up to its first zero; `none` where it reads
-- past the array, which has no zero then.
unfoldable pub array_text : ℕ → Bytes → Option Bytes
array_text len s = if leb 20 (length s) && ltb 20 len then none else some (prefix len s)

module _ (k : Constants) where
  unfoldable pub access : ℕ → Bytes
  access flags = if bit_and flags k.ms_rdonly == 0 then codes "rw" else codes "ro"

  -- A line of /etc/mtab; `none` where an array is read past its end, or a null pointer is given to "%s".
  unfoldable pub mtab_line : MountInfo → Option Bytes
  mtab_line m = elim (array_text m.source_length m.source) [
    | none ↦ none
    | some source ↦ elim (array_text m.location_length m.location) [
      | none ↦ none
      | some location ↦ elim (type_to_string k m.type) [
        | none ↦ none
        | some type ↦ some (
            codes "/dev/"
            ++ (source
                ++ (codes " "
                    ++ (location
                        ++ (codes " "
                            ++ (type
                                ++ (codes " "
                                    ++ (access m.flags
                                        ++ ((if bit_and m.flags k.ms_relatime == 0
                                              then (if bit_and m.flags k.ms_noatime == 0
                                                  then []
                                                  else codes ",noatime")
                                              else codes ",relatime")
                                            ++ codes " 0 0\n")))))))))
      ]
    ]
  ]

  -- A line of the list that is printed; `none` as for /etc/mtab.
  unfoldable pub mount_line : MountInfo → Option Bytes
  mount_line m = elim (array_text m.source_length m.source) [
    | none ↦ none
    | some source ↦ elim (array_text m.location_length m.location) [
      | none ↦ none
      | some location ↦ elim (type_to_string k m.type) [
        | none ↦ none
        | some type ↦ some (
            source
            ++ (codes " "
                ++ (location
                    ++ (codes " type "
                        ++ (type
                            ++ (codes " ("
                                ++ (access m.flags
                                    ++ ((if bit_and m.flags k.ms_relatime == 0
                                          then []
                                          else codes ",relatime")
                                        ++ codes ")\n"))))))))
      ]
    ]
  ]

  unfoldable pub print_mtab_lines : List MountInfo → Run Call (Unit {0})
  print_mtab_lines [] = return tt
  print_mtab_lines (m ∷ mounts) = elim (mtab_line m) [
    | none ↦ undefined
    | some line ↦ do put (call (print_mtab line)); print_mtab_lines mounts
  ]

  unfoldable pub print_mount_lines : List MountInfo → Run Call (Unit {0})
  print_mount_lines [] = return tt
  print_mount_lines (m ∷ mounts) = elim (mount_line m) [
    | none ↦ undefined
    | some line ↦ do put (stdout line); print_mount_lines mounts
  ]

  module _ (sys : System) where
    unfoldable pub update_mtab : Run Call ℤ
    update_mtab = do
      (ret, buffer) ← ask list_mounts sys.lists
      elim (bad_count ret) [
        | true ↦ return (pos 1)
        | false ↦ do
          opened ← ask open_mtab sys.mtab_opens
          elim opened [
            | false ↦ do put (perror (codes "mount: could not open mtab")); return (pos 1)
            | true ↦ elim (read_first (pos_part ret) buffer) [
              | none ↦ undefined
              | some mounts ↦ do print_mtab_lines mounts; return (pos 0)
            ]
          ]
      ]

    unfoldable pub print_kernel_mounts : Run Call ℤ
    print_kernel_mounts = do
      (ret, buffer) ← ask list_mounts sys.lists
      elim (bad_count ret) [
        | true ↦ return (pos 1)
        | false ↦ elim (read_first (pos_part ret) buffer) [
          | none ↦ undefined
          | some mounts ↦ do print_mount_lines mounts; return (pos 0)
        ]
      ]
