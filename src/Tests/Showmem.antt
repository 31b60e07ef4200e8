-- ===== src/Tests/Showmem.antt =====
-- Two options of src/showmem.c.
use util_ironclad.Base.{pos, some, [], ◌∷◌, ◌≡◌, refl, arith, map}
use util_ironclad.Run.{exit, call, stdout}
use util_ironclad.Showmem.{MemInfo, System, meminfo, number_line, main}
use util_ironclad.Showmem.Laws.{only_avail, only_used, flag, strongest, value, showmem_figure}

abbrev info : MemInfo
info = record {
  phys_total = 9000000;
  phys_available = 8000000;
  phys_free = 3000000;
  shared_usage = 0;
  kernel_usage = 0;
  table_usage = 0;
  poison_usage = 0;
}

abbrev sys : System
sys = record { info = λ log. (pos 0, info); width = λ total. some 5 }

used_example : main sys [] (map flag (only_avail ∷ only_used ∷ [])) [] ≡ (
  exit (pos 0),
  call meminfo ∷ stdout (number_line (value (strongest only_avail (only_used ∷ [])) info)) ∷ [],
)
used_example = showmem_figure sys [] only_avail (only_used ∷ []) info refl (omega arith)
