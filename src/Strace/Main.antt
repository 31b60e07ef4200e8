-- ===== src/Strace/Main.antt =====
-- src/strace.c: `main`.
use util_ironclad.Base.{
  ℕ, List, [], ◌∷◌, ◌++◌, Option, none, some, Bool, ◌==◌, if◌then◌else◌, ℤ, pos, ◌==ℤ◌, map,
}
use util_ironclad.Libc.Text.{Bytes, codes}
use util_ironclad.Libc.Format.{dec}
use util_ironclad.Libc.Getopt.{getopt}
use util_ironclad.Run.{
  Run, Log, call, ◌>>=◌, ◌>>◌, return, stop, exec_done, undefined, put, ask, when, fail, complain,
  while_getopt,
}
use util_ironclad.Commons.{help, version}
use util_ironclad.Strace.Print.{Registers}
use util_ironclad.Strace.Threads.{
  Numbers, ThreadInfo, Printed, handled, no_memory, out_of_fuel, printer,
}

-- The lines that `-h` prints.
unfoldable pub usage : List Bytes
unfolding codes
usage = map codes (
    "Usage: strace [options] [command]" ∷ "" ∷ "Options:" ∷ "-h            Print this help message"
    ∷ "-v|--version  Print version information"
    ∷ "-r            Print raw info instead of pretty output"
    ∷ "-o            Output file, else, stderr" ∷ "" ∷ "Command:"
    ∷ "Command that will be run for tracing" ∷ [])

-- `FILE *out`: standard error, or the file that `-o` opened.
pub data Output : Type 0 where
  to_stderr : Output
  to_file : Bytes → Output

-- The calls of the system. `fprint` is an `fprintf` to `out`.
pub data Call : Type 0 where
  fopen : Bytes → Call
  pipe fork close poll read waitpid : Call
  execvp : List Bytes → Call
  ptrace : ℤ → Call
  fprint : Output → Bytes → Call

-- The replies before the loop: whether `fopen` gives a file, whether `pipe` fails, what `fork` returns,
-- whether `execvp` fails, and the `errno` message if `ptrace` fails.
pub record System : Type 0 where
  pub opens : Bytes → Log Call → Bool
  pub pipe_fails : Log Call → Bool
  pub fork : Log Call → ℤ
  pub exec_fails : List Bytes → Log Call → Bool
  pub ptrace_error : Log Call → Option Bytes

-- One round of `while (true)`: whether `poll` fails; the thread and the registers that are read where
-- `POLLIN` is set; whether `realloc` would succeed; the exit status where `waitpid` gives the child.
pub record Round : Type 0 where
  pub poll_fails : Bool
  pub stop_read : Option (ℕ × Registers)
  pub grows : Bool
  pub exited : Option ℕ

module _ (numbers : Numbers) where
  unfoldable pub write_lines : Output → List (Option Bytes) → Run Call (Unit {0})
  write_lines out [] = return tt
  write_lines out (none ∷ lines) = undefined
  write_lines out (some text ∷ lines) = do put (call (fprint out text)); write_lines out lines

  unfoldable pub finish_stop : Output → Printed → Run Call (List ThreadInfo)
  finish_stop out (handled infos lines) = do write_lines out lines; return infos
  finish_stop out no_memory = fail (codes "strace: could not allocate thread information")
  finish_stop out out_of_fuel = undefined

  -- The body of `if (polled.revents & POLLIN)`: two entries of the block `PRINTER` are enough.
  unfoldable pub handle_stop :
      Output → Bool → Option (ℕ × Registers) → List ThreadInfo → Run Call (List ThreadInfo)
  handle_stop out grows none infos = return infos
  handle_stop out grows (some (tid, state)) infos = do
    put (call read)
    put (call read)
    finish_stop out (printer numbers 2 grows tid state infos)

  -- The loop, for as many rounds as are given; `none` where it still runs after them.
  unfoldable pub trace_loop : Output → List Round → List ThreadInfo → Run Call (Option ℕ)
  trace_loop out [] infos = return none
  trace_loop out (round ∷ rounds) infos = do
    put (call poll)
    when round.poll_fails (fail (codes "strace: Could not poll"))
    infos' ← handle_stop out round.grows round.stop_read infos
    put (call waitpid)
    elim round.exited [ some status ↦ return (some status) | none ↦ trace_loop out rounds infos' ]

module _ (sys : System) (package_version : Bytes) where
  unfoldable pub on_opt : ℕ → Bytes → Output → Run Call Output
  on_opt c arg out =
      if c == b'h'
      then help usage
      else if c == b'o'
      then ask (fopen arg) (sys.opens arg) >>= (λ opened.
        if opened then return (to_file arg) else fail (codes "strace: Could not open output file"))
      else version (codes "strace") package_version

  unfoldable pub on_bad : ℕ → Run Call (Unit {0})
  on_bad c = when (c == b'o') (complain (codes "strace: o needs an argument\n"))

-- After the options, up to the loop.
module _ (sys : System) where
  unfoldable pub launch : List Bytes → Run Call (Unit {0})
  launch command = do
    failed ← ask pipe sys.pipe_fails
    when failed (fail (codes "strace: Could not create pipes"))
    child ← ask fork sys.fork
    when (child ==ℤ pos 0) (do
      exec_failed ← ask (execvp command) (sys.exec_fails command)
      when exec_failed (fail (codes "strace: Could not launch program"))
      exec_done)
    error ← ask (ptrace child) sys.ptrace_error
    elim error [
      | none ↦ put (call close)
      | some message ↦ complain (codes "strace: Could not do ptrace: " ++ (message ++ codes "\n"))
    ]

-- `none` where the given rounds do not end the loop.
unfoldable pub main : System → Numbers → Bytes → List Bytes → List Round → Run Call (Option ℕ)
unfolding while_getopt on_opt on_bad launch trace_loop handle_stop finish_stop write_lines printer
    getopt
main sys numbers package_version args rounds = do
  (out, command) ←
      while_getopt (on_opt sys package_version) (on_bad sys package_version)
        (getopt (codes "hvo:") args) to_stderr
  launch sys command
  ended ← trace_loop numbers out rounds []
  elim ended [
    | none ↦ return none
    | some status ↦ do
      put (call (fprint out (codes "+++ exited with " ++ (dec status ++ codes " +++\n"))))
      stop (pos 0)
  ]
