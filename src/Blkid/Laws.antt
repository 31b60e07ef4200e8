-- ===== src/Blkid/Laws.antt =====
-- What src/blkid.c prints of a device, next to the text that src/mount.c searches for.
use util_ironclad.Base.{
  true, some, [], ◌∷◌, ◌++◌, ◌≡◌, append_assoc, append-nil, if◌then◌else◌, Bool-cases, inl, inr,
}
use util_ironclad.Libc.Text.{Bytes, codes}
use util_ironclad.Run.{Log, next, call, stdout, ◌>>=◌}
use util_ironclad.Uuid.{Uuid, uuid_text, uuid_to_string}
use util_ironclad.Uuid.Laws.{InRange, uuid_to_string_whole}
use util_ironclad.Blkid.{
  Call, open_device, device_uuid, System, is_zero, node_text, uuid_line, print_fd_uuid,
}

uuid_line-uuid_text :
    (path : Bytes) (u : Uuid)
    → uuid_line path u ≡ path ++ (codes ": " ++ (uuid_text u ++ codes "\n"))
unfolding uuid_line uuid_text node_text
uuid_line-uuid_text path u = simp (append_assoc, append-nil)

-- For a device that opens and gives a UUID with fields of their widths, the line that is printed
-- has the text that mount makes of the same UUID, and nothing is printed exactly where the UUID is
-- zero.
pub print_fd_uuid_lem :
    (sys : System) (path : Bytes) (u : Uuid) (log : Log Call)
    → sys.opens path log ≡ true
    → sys.uuid_of path (log ++ (call (open_device path) ∷ [])) ≡ some u
    → InRange u
    → print_fd_uuid sys path log ≡ (
      next tt,
      (log ++ (call (open_device path) ∷ []))
          ++ (call (device_uuid path)
              ∷ (if is_zero u
                  then []
                  else stdout (path ++ (codes ": " ++ (uuid_to_string u ++ codes "\n"))) ∷ [])),
    )
unfolding print_fd_uuid
print_fd_uuid_lem sys path u log o e r = elim (Bool-cases (is_zero u)) [
  | inl z ↦ rw (o, print_fd_uuid, ◌>>=◌, e, z)
  | inr z ↦ rw (
    o,
    print_fd_uuid,
    ◌>>=◌,
    e,
    z,
    uuid_line-uuid_text path u,
    (uuid_to_string_whole u r).0,
    append_assoc,
  )
]
