-- ===== src/Logger.antt =====
-- src/logger.c: `main`.
pub mod Laws
use util_ironclad.Base.{
  ℕ, zero, suc, ◌+◌, ◌%◌, ◌^◌, true, false, pos, Option, none, some, List, [], ◌∷◌, ◌++◌, leb,
  if◌then◌else◌, length, take, map,
}
use util_ironclad.Libc.Text.{Bytes, codes, str_eq, strcat}
use util_ironclad.Run.{Run, call, put, return, stop, undefined, ◌>>=◌, ◌>>◌}
use util_ironclad.Commons.{help, version}

-- The lines that `-h` prints.
unfoldable pub usage : List Bytes
unfolding codes
usage = map codes (
    "Usage: logger [options] ..." ∷ "" ∷ "Options:" ∷ "-h            Print this help message"
    ∷ "-v            Print version information" ∷ [])

pub data Call : Type 0 where
  openlog closelog : Call
  syslog : Bytes → Call

-- The first loop, which adds up `total_size`, a `size_t`.
unfoldable pub measure : Bytes → List Bytes → ℕ → Run Call ℕ
measure package_version [] total_size = return total_size
measure package_version (arg ∷ args) total_size = elim (str_eq arg (codes "-h")) [
  | true ↦ help usage
  | false ↦ elim (str_eq arg (codes "-v")) [
    | true ↦ version (codes "logger") package_version
    | false ↦ measure package_version args ((total_size + (length arg + 1)) % 2 ^ 64)
  ]
]

-- The second loop.
unfoldable pub join : ℕ → List Bytes → Bytes → Option Bytes
join size [] text = some text
join size (arg ∷ args) text = elim (strcat size text arg) [
  | none ↦ none
  | some with_arg ↦ elim (strcat size with_arg (codes " ")) [
    | none ↦ none
    | some with_space ↦ join size args with_space
  ]
]

-- `total_string[total_size - 1] = '\0'`; `none` where the index is below the array.
unfoldable pub seal : ℕ → Bytes → Option Bytes
seal zero text = none
seal (suc n) text = some (take n text)

unfoldable pub send : Option Bytes → Run Call (Unit {0})
send none = undefined
send (some message) = do
  put (call openlog)
  put (call (syslog message))
  put (call closelog)
  stop (pos 0)

unfoldable pub compose : ℕ → List Bytes → Option Bytes
compose total_size args = elim (join ((total_size + 1) % 2 ^ 64) args []) [
  | none ↦ none
  | some text ↦ seal total_size text
]

unfoldable pub main : Bytes → List Bytes → Run Call (Unit {0})
main package_version args = do
  total_size ← measure package_version args 0
  send (compose total_size args)
