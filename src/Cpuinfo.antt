-- ===== src/Cpuinfo.antt =====
-- src/cpuinfo.c: `main`.
pub mod Laws
use util_ironclad.Base.{
  ℕ, ◌-◌, ◌^◌, ℤ, pos, negsuc, Bool, true, false, Option, none, some, List, [], ◌∷◌, ◌++◌, ◌==◌,
  ◌==ℤ◌, ltb, if◌then◌else◌, map, take,
}
use util_ironclad.Libc.Text.{Bytes, codes, text_of}
use util_ironclad.Libc.Getopt.{getopt}
use util_ironclad.Libc.Format.{dec}
use util_ironclad.Run.{
  Run, Log, next, stdout, return, stop, ask, when, fail, complain, while_getopt, ◌>>=◌, ◌>>◌,
}
use util_ironclad.Commons.{help, version}

-- The lines that `-h` prints.
unfoldable pub usage : List Bytes
unfolding codes
usage = map codes (
    "Usage: cpuinfo [options]" ∷ "" ∷ "Options:" ∷ "-h              Print this help message"
    ∷ "-n              Display only the name of the CPU."
    ∷ "-c              Display only the count of cores."
    ∷ "-f              Display only the frequency of the CPU."
    ∷ "-v              Display version information." ∷ [])

-- `struct cpuinfo`. The names are the 64 bytes of their arrays.
pub record CpuInfo : Type 0 where
  pub conf_cores : ℕ
  pub onln_cores : ℕ
  pub model_name : Bytes
  pub vendor_name : Bytes
  pub base_mhz : ℕ
  pub max_mhz : ℕ
  pub ref_mhz : ℕ

-- The variables that the options set.
pub record Settings : Type 0 where
  pub only_name : Bool
  pub only_cores : Bool
  pub only_freq : Bool

abbrev pub defaults : Settings
defaults = record { only_name = false; only_cores = false; only_freq = false }

pub data Call : Type 0 where
  getcpuinfo cpuid : Call

-- The replies: what the system call returns, and the record that it fills; the frequencies that
-- `__get_cpuid` gives, `none` where it fails or the processor is another one. `gigahertz` is the print by
-- `%f` of a number of megahertz divided by 1000 in floating point.
pub record System : Type 0 where
  pub info : Log Call → ℤ × CpuInfo
  pub frequencies : Log Call → Option (ℕ × ℕ × ℕ)
  pub gigahertz : ℕ → Bytes

unfoldable pub on_opt : Bytes → ℕ → Bytes → Settings → Run Call Settings
on_opt package_version c optarg s =
    if c == b'h'
    then help usage
    else if c == b'n'
    then return (record s { only_name = true })
    else if c == b'c'
    then return (record s { only_cores = true })
    else if c == b'f'
    then return (record s { only_freq = true })
    else version (codes "cpuinfo") package_version

unfoldable pub on_bad : ℕ → Run Call (Unit {0})
on_bad optopt = complain (codes "cpuinfo: Unrecognized option\n")

-- `%ld` of a `uint64_t`
unfoldable pub signed : ℕ → Bytes
signed n = if ltb n (2 ^ 63) then dec n else b'-' ∷ dec (2 ^ 64 - n)

-- `printf("%.*s", (int)strnlen(name, 64), name)`
unfoldable pub name_text : Bytes → Bytes
name_text name = text_of (take 64 name)

-- The frequencies: base, maximum and reference.
unfoldable pub chosen : CpuInfo → Option (ℕ × ℕ × ℕ) → ℕ × ℕ × ℕ
chosen cpu none = (cpu.base_mhz, cpu.max_mhz, cpu.ref_mhz)
chosen cpu (some frequencies) = frequencies

module _ (sys : System) where
  unfoldable pub lines : Settings → CpuInfo → ℕ × ℕ × ℕ → List Bytes
  lines s cpu (base, max, reference) =
      if s.only_name
      then (name_text cpu.model_name ++ codes "\n") ∷ []
      else if s.only_cores
      then (signed cpu.conf_cores ++ codes "\n") ∷ []
      else if s.only_freq
      then (sys.gigahertz base ++ codes " GHz\n") ∷ []
      else (codes "Vendor ID:          " ++ (name_text cpu.vendor_name ++ codes "\n"))
        ∷ (codes "Model name:         " ++ (name_text cpu.model_name ++ codes "\n"))
        ∷ (codes "CPU Base Freq:      " ++ (sys.gigahertz base ++ codes " GHz\n"))
        ∷ (codes "CPU Max Freq:       " ++ (sys.gigahertz max ++ codes " GHz\n"))
        ∷ (codes "CPU Reference Freq: " ++ (sys.gigahertz reference ++ codes " GHz\n"))
        ∷ (codes "Cores per socket:   " ++ (signed cpu.conf_cores ++ codes "\n"))
        ∷ []

  unfoldable pub print : List Bytes → Run Call (Unit {0})
  print texts log = (next tt, log ++ map (λ l. stdout l) texts)

  -- After the system call. The end of `main` is the status 0.
  unfoldable pub report : Settings → ℤ × CpuInfo → Run Call (Unit {0})
  report s (ret, cpu) = do
    when (ret ==ℤ negsuc 0) (fail (codes "Could not get CPU information from the kernel"))
    frequencies ← ask cpuid sys.frequencies
    print (lines s cpu (chosen cpu frequencies))
    stop (pos 0)

  -- After the options.
  unfoldable pub show : Settings → Run Call (Unit {0})
  show s = ask getcpuinfo sys.info >>= report s

  unfoldable pub main : Bytes → List Bytes → Run Call (Unit {0})
  main package_version args = do
    (s, rest) ← while_getopt (on_opt package_version) on_bad (getopt (codes "hncfv") args) defaults
    show s
