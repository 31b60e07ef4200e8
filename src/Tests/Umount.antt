-- ===== src/Tests/Umount.antt =====
-- A target that src/umount.c unmounts by force.
use util_ironclad.Base.{negsuc, true, [], ◌∷◌, ◌==ℤ◌, ◌≡◌, refl, arith, if◌then◌else◌}
use util_ironclad.Libc.Text.{Bytes, codes}
use util_ironclad.Run.{exit, call, perror}
use util_ironclad.Umount.{System, umount, main}
use util_ironclad.Umount.Laws.{arguments, umount_one}

abbrev sys : System
sys = record { umounts = λ target flags log. negsuc 0; has_memory = λ log. true }

abbrev target : Bytes
target = b'/' ∷ b'm' ∷ []

unmount_example : main sys [] (arguments true target) [] ≡ (
  exit (sys.umounts target (if true then 1 else 0) []),
  call (umount target (if true then 1 else 0))
      ∷ (if sys.umounts target (if true then 1 else 0) [] ==ℤ negsuc 0
          then perror (codes "umount: Could not unmount") ∷ []
          else []),
)
unmount_example = umount_one sys [] true target refl (λ e. omega arith)
