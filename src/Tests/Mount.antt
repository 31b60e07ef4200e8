-- ===== src/Tests/Mount.antt =====
-- A system with one device that src/mount.c mounts.
use Prim.Native.Nat.{bit_and}
use util_ironclad.Base.{
  ℕ, inl, false, pos, true, not, ◌==◌, ◌==ℤ◌, none, some, List, [], ◌∷◌, ◌++◌, ◌≡◌, ◌↔◌, refl,
  subst, arith, if◌then◌else◌,
}
use util_ironclad.Libc.Text.{Bytes, codes, strtok, str_eq, strncmp_eq}
use util_ironclad.Libc.Format.{hex_wide}
use util_ironclad.Run.{Log, next, call, return, ◌>>=◌}
use util_ironclad.Uuid.{Uuid, uuid_to_string}
use util_ironclad.Uuid.Laws.{InRange}
use util_ironclad.Mount.Kinds.{Constants, string_to_type}
use util_ironclad.Mount.Kinds.Laws.{HasKinds}
use util_ironclad.Mount.Flags.{flag_of, add_flags}
use util_ironclad.Mount.Flags.Laws.{HasBits, any, begins_ro, is_known, add_flags-eq-none_iff}
use util_ironclad.Mount.System.{System, Call, MountInfo, list_mounts, device_uuid}
use util_ironclad.Mount.Devices.{is_visible, dev_path, probe, search_dev, get_path_from_uuid}
use util_ironclad.Mount.Devices.Laws.{get_path_from_uuid_found}
use util_ironclad.Mount.Listing.{print_kernel_mounts, update_mtab}
use util_ironclad.Mount.Listing.Laws.{IsShown, status_of, listing_statuses}
use util_ironclad.Mount.Main.{mounting, main}
use util_ironclad.Mount.Main.Laws.{ended, main_typed, main_untyped, main_rdonly}
use util_ironclad.Tests.Uuid.{root_uuid, root_uuid-InRange}

abbrev pub k : Constants
k = record {
  mnt_ext = 1;
  mnt_fat = 2;
  mnt_dev = 3;
  ms_rdonly = 1;
  ms_remount = 2;
  ms_relatime = 4;
  ms_noatime = 8;
}

abbrev root : MountInfo
root = record {
  type = 1;
  flags = 1;
  source = b's' ∷ b'd' ∷ b'a' ∷ [];
  source_length = 3;
  location = b'/' ∷ [];
  location_length = 1;
}

-- One device, "/dev/sda".
abbrev pub sys : System
sys = record {
  mounts = λ source target type flags log. pos 0;
  lists = λ log. (pos 1, root ∷ root ∷ root ∷ root ∷ root ∷ []);
  dev_names = λ log. some ((b's' ∷ b'd' ∷ b'a' ∷ []) ∷ []);
  opens = λ path log. true;
  uuid_of = λ path log. some root_uuid;
  fstab = λ log. none;
  mtab_opens = λ log. true;
  has_memory = λ log. true;
}

k-HasKinds : HasKinds k
k-HasKinds = record {
  ext_ne_zero = λ e. omega arith;
  fat_ne_zero = λ e. omega arith;
  ext_ne_fat = λ e. omega arith;
  dev_ne_ext = λ e. omega arith;
  dev_ne_fat = λ e. omega arith;
}

k-HasBits : HasBits k
k-HasBits = record {
  rdonly_bit = 0;
  remount_bit = 1;
  relatime_bit = 2;
  noatime_bit = 3;
  rdonly_eq = refl;
  remount_eq = refl;
  relatime_eq = refl;
  noatime_eq = refl;
  remount_ne = λ e. omega arith;
  relatime_ne = λ e. omega arith;
  noatime_ne = λ e. omega arith;
}

abbrev words : List Bytes
words = codes "noatime" ∷ codes "rosy" ∷ []

refused_words_example :
    (add_flags k words 0 ≡ none) ↔ (any (λ tok. not (is_known tok)) words ≡ true)
refused_words_example = add_flags-eq-none_iff k words 0

search_finds :
    (get_path_from_uuid sys (uuid_to_string root_uuid) []).0 ≡ next (some (b's' ∷ b'd' ∷ b'a' ∷ []))
unfolding get_path_from_uuid str_eq search_dev is_visible probe uuid_to_string hex_wide
search_finds = refl

known-InRange : (u : Uuid) → some root_uuid ≡ some u → InRange u
known-InRange u e = subst InRange (ground arith) root_uuid-InRange

search_example :
    (before : List Bytes) × (after : List Bytes) × (log : Log Call) × (sys.dev_names []
      ≡ some (before ++ ((b's' ∷ b'd' ∷ b'a' ∷ []) ∷ after)))
    × (is_visible (b's' ∷ b'd' ∷ b'a' ∷ []) ≡ true)
    × ((get_path_from_uuid sys (uuid_to_string root_uuid) []).1
        ≡ log ++ (call (device_uuid (dev_path (b's' ∷ b'd' ∷ b'a' ∷ []))) ∷ []))
    × (sys.uuid_of (dev_path (b's' ∷ b'd' ∷ b'a' ∷ [])) log ≡ some root_uuid)
search_example =
    get_path_from_uuid_found sys root_uuid [] (b's' ∷ b'd' ∷ b'a' ∷ []) root_uuid-InRange
      (λ path log u e. known-InRange u e) search_finds

root-IsShown : IsShown k root
root-IsShown = record {
  named = inl refl;
  source_ends = inl (omega arith);
  location_ends = inl (omega arith);
}

listing_example :
    ((print_kernel_mounts k sys []).0 ≡ next (status_of (pos 1)))
    × ((update_mtab k sys []).0
        ≡ next
            (if sys.mtab_opens ([] ++ (call list_mounts ∷ [])) then status_of (pos 1) else pos 1))
listing_example = listing_statuses k sys [] refl (root-IsShown, tt)

-- The arguments "ro", "/dev/sda" and "/mnt".
abbrev ro : Bytes
ro = b'r' ∷ b'o' ∷ []

abbrev dev_sda : Bytes
dev_sda = b'/' ∷ b'd' ∷ b'e' ∷ b'v' ∷ b'/' ∷ b's' ∷ b'd' ∷ b'a' ∷ []

abbrev mnt : Bytes
mnt = b'/' ∷ b'm' ∷ b'n' ∷ b't' ∷ []

ro_flags : add_flags k (strtok ro (codes ",")) 0 ≡ some 1
unfolding add_flags flag_of codes strncmp_eq strtok
ro_flags = refl

bad_flags : add_flags k (strtok mnt (codes ",")) 0 ≡ none
unfolding add_flags flag_of codes strncmp_eq strtok
bad_flags = refl

typed_example :
    main k sys [] (codes "-t" ∷ codes "ext" ∷ codes "-f" ∷ ro ∷ dev_sda ∷ mnt ∷ []) []
    ≡ (mounting k sys dev_sda mnt (string_to_type k (codes "ext")) 0 >>= ended k sys) []
typed_example = main_typed k sys [] (codes "ext") ro dev_sda mnt 1 refl (λ e. omega arith) ro_flags

untyped_example :
    main k sys [] (codes "-f" ∷ ro ∷ dev_sda ∷ mnt ∷ []) []
    ≡ ((mounting k sys dev_sda mnt k.mnt_ext 1 >>= (λ ret.
            if ret ==ℤ pos 0 then return ret else mounting k sys dev_sda mnt k.mnt_fat 1))
          >>= ended k sys)
        []
untyped_example = main_untyped k sys [] ro dev_sda mnt 1 refl (λ e. omega arith) ro_flags

ro_known : any (λ tok. not (is_known tok)) (strtok ro (codes ",")) ≡ false
unfolding any is_known codes strncmp_eq strtok
ro_known = refl

ro_example :
    (flags : ℕ) × (main k sys [] (codes "-f" ∷ ro ∷ dev_sda ∷ mnt ∷ []) []
      ≡ ((mounting k sys dev_sda mnt k.mnt_ext flags >>= (λ ret.
              if ret ==ℤ pos 0 then return ret else mounting k sys dev_sda mnt k.mnt_fat flags))
            >>= ended k sys)
          [])
    × ((bit_and flags k.ms_rdonly == 0) ≡ not (any begins_ro (strtok ro (codes ","))))
ro_example = main_rdonly k sys [] ro dev_sda mnt k-HasBits refl (λ e. omega arith) ro_known
