-- ===== src/Tests/Watch.antt =====
-- A command of src/watch.c, and its header.
use util_ironclad.Base.{
  ◌==ℤ◌, pos, true, false, none, some, List, [], ◌∷◌, ◌++◌, ◌≡◌, refl, arith, length, if◌then◌else◌,
}
use util_ironclad.Libc.Text.{Bytes, codes}
use util_ironclad.Libc.Getopt.{getopt}
use util_ironclad.Libc.Getopt.Laws.{operands_of}
use util_ironclad.Run.{fault}
use util_ironclad.Watch.{Settings, System, title, header, main}
use util_ironclad.Watch.Laws.{is_plain, watch_overruns, watch_header}

abbrev sys : System
sys = record {
  is_zero = λ text. false;
  one_decimal = λ text. b'2' ∷ b'.' ∷ b'0' ∷ [];
  duration = λ text. (pos 2, pos 0);
  exit_status = λ status. if status ==ℤ pos 0 then 0 else 1;
}

abbrev word : Bytes
word = b'l' ∷ b's' ∷ []

abbrev under_e : Settings
under_e = record { stop_on_fail = true; do_exec = false; seconds_for_update = none }

-- watch -e -n 1 ls
abbrev args : List Bytes
args = codes "-e" ∷ codes "-n" ∷ (b'1' ∷ []) ∷ word ∷ []

args_plain : is_plain sys (getopt (codes "hvexn:") args) ≡ true
unfolding is_plain getopt codes
args_plain = refl

args_operands : operands_of (getopt (codes "hvexn:") args) ≡ word ∷ []
unfolding operands_of getopt codes
args_operands = refl

overrun_example : main sys [] args [] [] ≡ (fault, [])
overrun_example = watch_overruns sys [] args word [] [] [] args_plain args_operands

title_fits : length (title sys under_e word) ≡ 15
unfolding title codes
title_fits = refl

header_example :
    (line : Bytes) × (header sys under_e word 80 (some ((b'1' ∷ []) ++ (10 ∷ [])))
      ≡ some (line ++ (10 ∷ [])))
    × (length line ≡ 80)
header_example =
    watch_header sys under_e word (b'1' ∷ []) 80 (omega (arith, title_fits)) (omega arith)
