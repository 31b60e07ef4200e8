-- ===== src/Mount/Devices.antt =====
-- src/mount.c: `get_path_from_uuid`.
pub mod Laws
use util_ironclad.Base.{
  Bool, true, false, Option, none, some, List, [], ◌∷◌, ◌++◌, ◌==◌, if◌then◌else◌,
}
use util_ironclad.Libc.Text.{Bytes, codes, str_eq}
use util_ironclad.Run.{Run, return, ask, ◌>>=◌}
use util_ironclad.Uuid.{uuid_to_string}
use util_ironclad.Mount.System.{System, Call, read_dev, open_device, device_uuid}

-- `entry->d_name[0] != '.'`; the empty name has a zero there.
unfoldable pub is_visible : Bytes → Bool
is_visible [] = true
is_visible (c ∷ name) = if c == b'.' then false else true

unfoldable pub dev_path : Bytes → Bytes
dev_path name = codes "/dev/" ++ name

module _ (sys : System) (searched_uuid : Bytes) where
  -- The body of the loop for a visible entry: `none` where the function returns a null pointer, else
  -- whether the entry is the one that is searched.
  unfoldable pub probe : Bytes → Run Call (Option Bool)
  probe name = ask (open_device (dev_path name)) (sys.opens (dev_path name)) >>= (λ opened.
      elim opened [
        | false ↦ return none
        | true ↦ ask (device_uuid (dev_path name)) (sys.uuid_of (dev_path name)) >>= (λ reply.
            elim reply [
              | none ↦ return none
              | some uuid ↦ return (some (str_eq searched_uuid (uuid_to_string uuid)))
            ])
      ])

  unfoldable pub search_dev : List Bytes → Run Call (Option Bytes)
  search_dev [] = return none
  search_dev (name ∷ names) = elim (is_visible name) [
    | false ↦ search_dev names
    | true ↦ do
      found ← probe name
      elim found [
        | none ↦ return none
        | some true ↦ return (some name)
        | some false ↦ search_dev names
      ]
  ]

  -- The result is the name of the entry, without "/dev/".
  unfoldable pub get_path_from_uuid : Run Call (Option Bytes)
  get_path_from_uuid = do
    folder ← ask read_dev sys.dev_names
    elim folder [ none ↦ return none | some names ↦ search_dev names ]
