-- ===== src/Cpuinfo/Laws.antt =====
-- The name that src/cpuinfo.c prints.
use util_ironclad.Base.{ℕ, pos, true, List, [], ◌∷◌, ◌++◌, ◌≡◌, refl, ◌∙◌, arith, map}
use util_ironclad.Libc.Text.{Bytes, codes}
use util_ironclad.Libc.Getopt.{getopt}
use util_ironclad.Run.{Log, exit, call, stdout, while_getopt}
use util_ironclad.Run.Flags.{after_all, flags-run}
use util_ironclad.Cpuinfo.{
  CpuInfo, Settings, defaults, Call, getcpuinfo, cpuid, System, on_opt, on_bad, name_text, chosen,
  lines, print, report, show, main,
}

-- The options that choose a line.
pub data Line : Type 0 where
  name cores freq : Line

unfoldable pub flag : Line → Bytes
flag name = codes "-n"
flag cores = codes "-c"
flag freq = codes "-f"

abbrev after : Settings → Line → Settings
after s name = record s { only_name = true }
after s cores = record s { only_cores = true }
after s freq = record s { only_freq = true }

option_step :
    (package_version : Bytes) (l : Line) (args : List Bytes) (s : Settings) (log : Log Call)
    → while_getopt (on_opt package_version) on_bad (getopt (codes "hncfv") (flag l ∷ args)) s log
      ≡ while_getopt (on_opt package_version) on_bad (getopt (codes "hncfv") args) (after s l) log
unfolding while_getopt getopt codes on_opt flag
option_step package_version name args s log = refl
option_step package_version cores args s log = refl
option_step package_version freq args s log = refl

keeps_name :
    (ls : List Line) (s : Settings) → s.only_name ≡ true → (after_all after s ls).only_name ≡ true
keeps_name [] s h = h
keeps_name (name ∷ ls) s h = keeps_name ls (after s name) refl
keeps_name (cores ∷ ls) s h = keeps_name ls (after s cores) h
keeps_name (freq ∷ ls) s h = keeps_name ls (after s freq) h

sets_name :
    (before later : List Line) (s : Settings)
    → (after_all after s (before ++ (name ∷ later))).only_name ≡ true
sets_name [] later s = keeps_name later (after s name) refl
sets_name (l ∷ before) later s = sets_name before later (after s l)

lines-name :
    (sys : System) (s : Settings) (cpu : CpuInfo) (f : ℕ × ℕ × ℕ)
    → s.only_name ≡ true
    → lines sys s cpu f ≡ (name_text cpu.model_name ++ codes "\n") ∷ []
unfolding lines
lines-name sys s cpu f h = ground arith

module _ (sys : System) (package_version : Bytes) where
  -- With -n among the options, whichever others of -c and -f come before or after it, only the name of the
  -- model is printed, and the status is 0, where the kernel answers.
  pub cpuinfo_name :
      (before later : List Line) (n : ℕ) (cpu : CpuInfo)
      → sys.info [] ≡ (pos n, cpu)
      → main sys package_version (map flag (before ++ (name ∷ later))) [] ≡ (
        exit (pos 0),
        call getcpuinfo ∷ call cpuid ∷ stdout (name_text cpu.model_name ++ codes "\n") ∷ [],
      )
  unfolding main show report print
  cpuinfo_name before later n cpu answered =
      let s = after_all after defaults (before ++ (name ∷ later)) in
      flags-run (on_opt package_version) on_bad (codes "hncfv") flag after
        (option_step package_version) (λ p. show sys p.0) (before ++ (name ∷ later)) defaults []
      ∙ rw
          (
            show,
            answered,
            report,
            print,
            lines-name sys s cpu (chosen cpu (sys.frequencies (call getcpuinfo ∷ [])))
                (sets_name before later defaults),
          )
          refl
