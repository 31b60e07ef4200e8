-- ===== src/Strace/Threads.antt =====
-- src/strace.c: `struct thread_info` and the block `PRINTER` of the loop of `main`, which handles one
-- stop of a thread: it prints the stop and keeps, for each thread, which kind of stop comes next.
use util_ironclad.Base.{
  ℕ, zero, suc, List, [], ◌∷◌, ◌++◌, Option, none, some, Bool, true, false, ◌||◌, ◌==◌,
  if◌then◌else◌,
}
use util_ironclad.Libc.Text.{Bytes, codes}
use util_ironclad.Libc.Format.{dec}
use util_ironclad.Strace.Print.{Registers, print_syscall, print_error}

pub record ThreadInfo : Type 0 where
  pub tid : ℕ
  pub is_syscall : Bool

-- The call numbers of <sys/syscall.h> that the code compares with.
pub record Numbers : Type 0 where
  pub exit : ℕ
  pub exit_thread : ℕ
  pub exec : ℕ

-- What the loop over `infos` leaves: the array, the lines printed (`none` for one whose print has no
-- defined result), and `found_idx`.
pub record Pass : Type 0 where
  pub infos : List ThreadInfo
  pub lines : List (Option Bytes)
  pub found : Bool

-- How a step of the block ends: the stop is handled, `realloc` failed, or the fuel ran out.
pub data Printed : Type 0 where
  handled : List ThreadInfo → List (Option Bytes) → Printed
  no_memory : Printed
  out_of_fuel : Printed

module _ (numbers : Numbers) where
  -- The calls that do not come back, so that the next stop is a call again.
  unfoldable pub no_return : ℕ → Bool
  no_return rax = rax == numbers.exit || rax == numbers.exit_thread || rax == numbers.exec

  -- The two kinds of line.
  unfoldable pub line : ℕ → Registers → Bool → Option Bytes
  line tid state true = elim (print_syscall state) [
    | none ↦ none
    | some text ↦ some (dec tid ++ (codes ": " ++ (text ++ codes "\n")))
  ]
  line tid state false =
      some (codes "\t" ++ (dec tid ++ (codes ": " ++ (print_error state ++ codes "\n"))))

  unfoldable pub advance : Registers → Bool → Bool
  unfolding no_return
  advance state true = no_return state.rax
  advance state false = true

  -- The `for` loop over `infos`, which goes on after a hit.
  unfoldable pub visit : ℕ → Registers → List ThreadInfo → Pass
  visit tid state [] = record { infos = []; lines = []; found = false }
  visit tid state (info ∷ infos) =
      let rest = visit tid state infos in
      if info.tid == tid
      then record {
        infos = record info { is_syscall = advance state info.is_syscall } ∷ rest.infos;
        lines = line tid state info.is_syscall ∷ rest.lines;
        found = true;
      }
      else record { infos = info ∷ rest.infos; lines = rest.lines; found = rest.found }

  -- From the label `PRINTER`. Each entry of the block takes one unit of fuel; `grows` is whether
  -- `realloc` succeeds.
  unfoldable pub printer : ℕ → Bool → ℕ → Registers → List ThreadInfo → Printed
  unfolding visit
  printer zero grows tid state infos = out_of_fuel
  printer (suc fuel) grows tid state infos =
      let pass = visit tid state infos in
      let again =
        printer fuel grows tid state
          (pass.infos ++ (record { tid = tid; is_syscall = true } ∷ [])) in
      if pass.found then handled pass.infos pass.lines else if grows then again else no_memory
