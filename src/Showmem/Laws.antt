-- ===== src/Showmem/Laws.antt =====
-- Which number src/showmem.c prints.
use util_ironclad.Base.{
  ℕ, ◌≤◌, ◌-◌, ◌/◌, pos, sub_ℕ, leb, Bool, true, false, Option, some, List, [], ◌∷◌, ◌≡◌, refl, ◌∙◌,
  ap, arith, map,
}
use util_ironclad.Libc.Text.{Bytes, codes}
use util_ironclad.Libc.Getopt.{getopt}
use util_ironclad.Run.{Log, exit, call, stdout, while_getopt}
use util_ironclad.Run.Flags.{after_all, flags-run}
use util_ironclad.Showmem.{
  MemInfo, Settings, defaults, Call, meminfo, System, on_opt, on_bad, unsigned, thousandth, free,
  available, used, number_line, shown, print_shown, print_lines, report, show, main,
}

-- The options that choose a number.
pub data Figure : Type 0 where
  only_free only_used only_avail : Figure

unfoldable pub flag : Figure → Bytes
flag only_free = codes "-f"
flag only_used = codes "-u"
flag only_avail = codes "-t"

-- -f goes before -u, and -u before -t.
unfoldable pub stronger : Figure → Figure → Figure
stronger only_free n = only_free
stronger only_used only_free = only_free
stronger only_used only_used = only_used
stronger only_used only_avail = only_used
stronger only_avail n = n

unfoldable pub strongest : Figure → List Figure → Figure
strongest m [] = m
strongest m (n ∷ ms) = strongest (stronger m n) ms

-- The number in megabytes.
unfoldable pub value : Figure → MemInfo → ℕ
value only_free i = i.phys_free / 1000000
value only_used i = (i.phys_available / 1000 - i.phys_free / 1000) / 1000
value only_avail i = i.phys_available / 1000000

-- The variables after options of which `m` is the strongest.
data Chosen : Figure → Settings → Type 0 where
  chosen_free :
      (used avail : Bool)
      → Chosen only_free (record {
        print_only_free = true;
        print_only_used = used;
        print_only_avail = avail;
        print_only_total = false;
      })
  chosen_used :
      (avail : Bool)
      → Chosen only_used (record {
        print_only_free = false;
        print_only_used = true;
        print_only_avail = avail;
        print_only_total = false;
      })
  chosen_avail : Chosen only_avail (record {
    print_only_free = false;
    print_only_used = false;
    print_only_avail = true;
    print_only_total = false;
  })

abbrev after : Settings → Figure → Settings
after s only_free = record s { print_only_free = true }
after s only_used = record s { print_only_used = true }
after s only_avail = record s { print_only_avail = true }

after-Chosen : (m n : Figure) (s : Settings) → Chosen m s → Chosen (stronger m n) (after s n)
unfolding stronger
after-Chosen only_free only_free _ (chosen_free u a) = chosen_free u a
after-Chosen only_free only_used _ (chosen_free u a) = chosen_free true a
after-Chosen only_free only_avail _ (chosen_free u a) = chosen_free u true
after-Chosen only_used only_free _ (chosen_used a) = chosen_free true a
after-Chosen only_used only_used _ (chosen_used a) = chosen_used a
after-Chosen only_used only_avail _ (chosen_used a) = chosen_used true
after-Chosen only_avail only_free _ chosen_avail = chosen_free false true
after-Chosen only_avail only_used _ chosen_avail = chosen_used true
after-Chosen only_avail only_avail _ chosen_avail = chosen_avail

after_all-Chosen :
    (m : Figure) (ms : List Figure) (s : Settings)
    → Chosen m s
    → Chosen (strongest m ms) (after_all after s ms)
unfolding strongest
after_all-Chosen m [] s c = c
after_all-Chosen m (n ∷ ms) s c =
    after_all-Chosen (stronger m n) ms (after s n) (after-Chosen m n s c)

first-Chosen : (m : Figure) → Chosen m (after defaults m)
first-Chosen only_free = chosen_free false false
first-Chosen only_used = chosen_used false
first-Chosen only_avail = chosen_avail

option_step :
    (package_version : Bytes) (m : Figure) (args : List Bytes) (s : Settings) (log : Log Call)
    → while_getopt (on_opt package_version) on_bad (getopt (codes "hfutv") (flag m ∷ args)) s log
      ≡ while_getopt (on_opt package_version) on_bad (getopt (codes "hfutv") args) (after s m) log
unfolding while_getopt getopt codes on_opt flag
option_step package_version only_free args s log = refl
option_step package_version only_used args s log = refl
option_step package_version only_avail args s log = refl

line_of : {m n : ℕ} → m ≡ n → some (number_line m ∷ []) ≡ some (number_line n ∷ [])
line_of e = ap (λ k. some (number_line k ∷ [])) e

millionth : (n : ℕ) → n / 1000 / 1000 ≡ n / 1000000
millionth n = omega arith

difference :
    (a b : ℕ)
    → b ≤ a
    → unsigned (thousandth (sub_ℕ (a / 1000) (b / 1000))) ≡ (a / 1000 - b / 1000) / 1000
unfolding unsigned thousandth
difference a b h =
    let e : leb (b / 1000) (a / 1000) ≡ true = ground arith in rw (thousandth, e) refl

shown-Chosen :
    (width : ℕ → Option ℕ) (m : Figure) (s : Settings) (i : MemInfo)
    → i.phys_free ≤ i.phys_available
    → Chosen m s
    → shown width s i ≡ some (number_line (value m i) ∷ [])
unfolding shown value free available used
shown-Chosen width m _ i h (chosen_free u a) = line_of (millionth i.phys_free)
shown-Chosen width m _ i h (chosen_used a) = line_of (difference i.phys_available i.phys_free h)
shown-Chosen width m _ i h chosen_avail = line_of (millionth i.phys_available)

module _ (sys : System) (package_version : Bytes) where
  -- With options -f, -u and -t in any number and order, where the kernel answers and no more memory is free
  -- than available, one number is printed: that of -f if it is among them, else that of -u, else
  -- that of -t. It is the free memory, the used one or the available one in units of 1000000 bytes, where
  -- the used memory is the difference of the others in units of 1000 bytes.
  pub showmem_figure :
      (m : Figure) (ms : List Figure) (i : MemInfo)
      → sys.info [] ≡ (pos 0, i)
      → i.phys_free ≤ i.phys_available
      → main sys package_version (map flag (m ∷ ms)) []
        ≡ (exit (pos 0), call meminfo ∷ stdout (number_line (value (strongest m ms) i)) ∷ [])
  unfolding main show report print_shown print_lines
  showmem_figure m ms i answered h =
      flags-run (on_opt package_version) on_bad (codes "hfutv") flag after
        (option_step package_version) (λ p. show sys p.0) (m ∷ ms) defaults []
      ∙ rw
          (
            show,
            answered,
            report,
            shown-Chosen sys.width (strongest m ms) (after_all after (after defaults m) ms) i h
                (after_all-Chosen m ms (after defaults m) (first-Chosen m)),
          )
          refl
