-- ===== src/Tests/Lspci.antt =====
-- More devices than src/lspci.c first has room for.
use util_ironclad.Base.{pos, true, List, [], ◌++◌, ◌≡◌, refl, replicate, length, take, map, arith}
use util_ironclad.Run.{exit, stdout}
use util_ironclad.Lspci.{DevInfo, System, row, main}
use util_ironclad.Lspci.Laws.{calls, lspci_all}

abbrev device : DevInfo
device = record {
  bus = 0;
  func = 1;
  slot = 2;
  device_id = 3;
  vendor_id = 4;
  rev_id = 5;
  subclass = 6;
  device_class = 7;
  prog_if = 8;
}

abbrev devices : List DevInfo
devices = replicate 21 device

abbrev sys : System
sys = record {
  has_memory = λ count log. true;
  list = λ count log. (pos (length devices), take count devices);
}

devices_example : main sys [] [] [] ≡ (
  exit (pos 0),
  calls sys [] devices (λ n log. refl) (λ n log. refl) ++ map (λ d. stdout (row d)) devices,
)
devices_example = lspci_all sys [] devices (λ n log. refl) (λ n log. refl) (omega arith)
