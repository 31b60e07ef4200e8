-- ===== src/Tests/Blkid.antt =====
-- A device that src/blkid.c prints.
use util_ironclad.Base.{true, none, some, [], ◌∷◌, ◌++◌, ◌≡◌, refl, if◌then◌else◌}
use util_ironclad.Libc.Text.{Bytes, codes}
use util_ironclad.Run.{next, call, stdout}
use util_ironclad.Uuid.{uuid_to_string}
use util_ironclad.Blkid.{System, open_device, device_uuid, is_zero, print_fd_uuid}
use util_ironclad.Blkid.Laws.{print_fd_uuid_lem}
use util_ironclad.Tests.Uuid.{root_uuid, root_uuid-InRange}

abbrev sys : System
sys = record {
  opens = λ path log. true;
  uuid_of = λ path log. some root_uuid;
  dev_names = λ log. none;
}

abbrev path : Bytes
path = b's' ∷ b'd' ∷ b'a' ∷ []

device_example : print_fd_uuid sys path [] ≡ (
  next tt,
  ([] ++ (call (open_device path) ∷ []))
      ++ (call (device_uuid path)
          ∷ (if is_zero root_uuid
              then []
              else stdout (path ++ (codes ": " ++ (uuid_to_string root_uuid ++ codes "\n"))) ∷ [])),
)
device_example = print_fd_uuid_lem sys path root_uuid [] refl refl root_uuid-InRange
