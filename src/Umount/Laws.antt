-- ===== src/Umount/Laws.antt =====
-- Runs of src/umount.c on one target.
use util_ironclad.Base.{negsuc, Bool, true, false, List, [], ◌∷◌, ◌==ℤ◌, if◌then◌else◌, ◌≡◌, arith}
use util_ironclad.Libc.Text.{Bytes, codes}
use util_ironclad.Libc.Getopt.{getopt}
use util_ironclad.Libc.Getopt.Laws.{IsOperand, scan_operand}
use util_ironclad.Run.{exit, call, perror, while_getopt}
use util_ironclad.Umount.{umount, System, on_opt, dup, operands, unmount, main}

-- The arguments with `-f` or without it.
unfoldable pub arguments : Bool → Bytes → List Bytes
arguments true target = codes "-f" ∷ target ∷ []
arguments false target = target ∷ []

module _ (sys : System) (package_version : Bytes) where
  -- With memory for the copy and a target that is no option, the target is unmounted once, forced
  -- exactly with `-f`; the status is the result of that call, with a message exactly where it is
  -- -1.
  pub umount_one :
      (forced : Bool) (target : Bytes)
      → sys.has_memory [] ≡ true
      → IsOperand target
      → main sys package_version (arguments forced target) [] ≡ (
        exit (sys.umounts target (if forced then 1 else 0) []),
        call (umount target (if forced then 1 else 0))
            ∷ (if sys.umounts target (if forced then 1 else 0) [] ==ℤ negsuc 0
                then perror (codes "umount: Could not unmount") ∷ []
                else []),
      )
  unfolding main while_getopt getopt codes on_opt operands dup unmount arguments
  umount_one true target h o = rw (scan_operand (codes "hvf") target [] o) (ground arith)
  umount_one false target h o = rw (scan_operand (codes "hvf") target [] o) (ground arith)
