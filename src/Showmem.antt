-- ===== src/Showmem.antt =====
-- src/showmem.c: `main`.
pub mod Laws
use util_ironclad.Base.{
  ℕ, suc, ◌-◌, ◌/◌, ◌^◌, ℤ, pos, negsuc, Bool, true, false, Option, none, some, List, [], ◌∷◌, ◌++◌,
  ◌==◌, ◌==ℤ◌, sub_ℕ, if◌then◌else◌, map,
}
use util_ironclad.Libc.Text.{Bytes, codes}
use util_ironclad.Libc.Getopt.{getopt}
use util_ironclad.Libc.Format.{dec, wide}
use util_ironclad.Run.{
  Run, Log, next, stdout, return, stop, undefined, ask, when, complain, while_getopt, ◌>>=◌, ◌>>◌,
}
use util_ironclad.Commons.{help, version}

-- The lines that `-h` prints.
unfoldable pub usage : List Bytes
unfolding codes
usage = map codes (
    "Usage: showmem [options]" ∷ "" ∷ "Options:" ∷ "-h      Print this help message"
    ∷ "-f      Print free memory (in MiB)" ∷ "-u      Print used memory (in MiB)"
    ∷ "-t      Print available memory (in MiB)"
    ∷ "-i      Print total installed system memory (in MiB)"
    ∷ "-v      Display version information." ∷ [])

-- `struct mem_info`
pub record MemInfo : Type 0 where
  pub phys_total : ℕ
  pub phys_available : ℕ
  pub phys_free : ℕ
  pub shared_usage : ℕ
  pub kernel_usage : ℕ
  pub table_usage : ℕ
  pub poison_usage : ℕ

-- The variables that the options set.
pub record Settings : Type 0 where
  pub print_only_free : Bool
  pub print_only_used : Bool
  pub print_only_avail : Bool
  pub print_only_total : Bool

abbrev pub defaults : Settings
defaults = record {
  print_only_free = false;
  print_only_used = false;
  print_only_avail = false;
  print_only_total = false;
}

pub data Call : Type 0 where
  meminfo : Call

-- The replies of the kernel: what the call returns, and the record that it fills. `width` is the value of
-- `round(1 + log(total) / log(10))` as an `int`, `none` where it has none.
pub record System : Type 0 where
  pub info : Log Call → ℤ × MemInfo
  pub width : ℕ → Option ℕ

-- Every `case` of the switch, the one of the option i too, which the option string does not have.
unfoldable pub on_opt : Bytes → ℕ → Bytes → Settings → Run Call Settings
on_opt package_version c optarg s =
    if c == b'h'
    then help usage
    else if c == b'f'
    then return (record s { print_only_free = true })
    else if c == b'u'
    then return (record s { print_only_used = true })
    else if c == b't'
    then return (record s { print_only_avail = true })
    else if c == b'i'
    then return (record s { print_only_total = true })
    else version (codes "showmem") package_version

unfoldable pub on_bad : ℕ → Run Call (Unit {0})
on_bad optopt = complain (codes "showmem: Unknown option '" ++ (optopt ∷ codes "'\n"))

-- `%lu` of a `long`.
unfoldable pub unsigned : ℤ → ℕ
unsigned (pos n) = n
unsigned (negsuc n) = 2 ^ 64 - 1 - n

-- The quotient of a `long` by 1000, towards zero.
unfoldable pub thousandth : ℤ → ℤ
thousandth (pos n) = pos (n / 1000)
thousandth (negsuc n) = sub_ℕ 0 (suc n / 1000)

-- The numbers in kilobytes.
unfoldable pub free : MemInfo → ℕ
free m = m.phys_free / 1000

unfoldable pub available : MemInfo → ℕ
available m = m.phys_available / 1000

unfoldable pub total : MemInfo → ℕ
total m = m.phys_total / 1000

unfoldable pub used : MemInfo → ℤ
used m = sub_ℕ (available m) (free m)

-- `printf("%lu\n", n)`
unfoldable pub number_line : ℕ → Bytes
number_line n = dec n ++ codes "\n"

unfoldable pub table_line : Bytes → ℕ → ℕ → Bytes
table_line name width n = name ++ (wide width (dec n) ++ codes " kB\n")

unfoldable pub table : MemInfo → ℕ → List Bytes
table m width =
    table_line (codes "Free memory:      ") width (free m)
    ∷ table_line (codes "Used memory:      ") width (unsigned (used m))
    ∷ table_line (codes "Available memory: ") width (available m)
    ∷ table_line (codes "Total memory:     ") width (total m)
    ∷ table_line (codes "Shared memory:    ") width (m.shared_usage / 1000)
    ∷ table_line (codes "Kernel memory:    ") width (m.kernel_usage / 1000)
    ∷ table_line (codes "Table memory:     ") width (m.table_usage / 1000)
    ∷ table_line (codes "Poisoned memory:  ") width (m.poison_usage / 1000)
    ∷ []

unfoldable pub print_lines : List Bytes → Run Call (Unit {0})
print_lines lines log = (next tt, log ++ map (λ l. stdout l) lines)

-- What is printed; `none` where the width has no value.
unfoldable pub shown : (ℕ → Option ℕ) → Settings → MemInfo → Option (List Bytes)
shown width s m =
    if s.print_only_free
    then some (number_line (free m / 1000) ∷ [])
    else if s.print_only_used
    then some (number_line (unsigned (thousandth (used m))) ∷ [])
    else if s.print_only_avail
    then some (number_line (available m / 1000) ∷ [])
    else if s.print_only_total
    then some (number_line (total m / 1000) ∷ [])
    else elim (width (total m)) [ none ↦ none | some w ↦ some (table m w) ]

unfoldable pub print_shown : Option (List Bytes) → Run Call (Unit {0})
print_shown none = undefined
print_shown (some lines) = print_lines lines

module _ (sys : System) where
  -- After the system call.
  unfoldable pub report : Settings → ℤ × MemInfo → Run Call (Unit {0})
  report s (ret, m) = do
    when (if ret ==ℤ pos 0 then false else true) (stop (pos 1))
    print_shown (shown sys.width s m)
    stop (pos 0)

  -- After the options.
  unfoldable pub show : Settings → Run Call (Unit {0})
  show s = ask meminfo sys.info >>= report s

  unfoldable pub main : Bytes → List Bytes → Run Call (Unit {0})
  main package_version args = do
    (s, rest) ← while_getopt (on_opt package_version) on_bad (getopt (codes "hfutv") args) defaults
    show s
