-- ===== src/Strace/Refinement.antt =====
-- The loop of src/strace.c keeps an array of threads. Here it is compared with a tracer that keeps, as
-- a function, the kind of the next stop of every thread.
use mathlib.Core.Path.{fun_ext}
use util_ironclad.Base.{
  ℕ, List, [], ◌∷◌, ◌++◌, Option, none, some, Bool, true, ◌==◌, if◌then◌else◌, ◌≡◌, refl, arith,
  All,
}
use util_ironclad.Libc.Text.{Bytes, codes}
use util_ironclad.Run.{Run, Log, call, fail, put, return, when, ◌>>=◌, ◌>>◌, bind_congr}
use util_ironclad.Strace.Print.{Registers}
use util_ironclad.Strace.Threads.{ThreadInfo, Numbers, line, advance, handled}
use util_ironclad.Strace.Main.{
  Call, poll, read, waitpid, Output, Round, write_lines, finish_stop, handle_stop, trace_loop,
}
use util_ironclad.Strace.Phases.{
  phase?, expects, IsDistinct, settle, printer_lem, settle-IsDistinct, phase?-settle,
}

module _ (numbers : Numbers) where
  -- The view of the array.
  unfoldable pub phases : List ThreadInfo → ℕ → Bool
  phases infos t = expects (phase? t infos)

  unfoldable pub update : ℕ → Registers → (ℕ → Bool) → ℕ → Bool
  update tid state ph t = if t == tid then advance numbers state (ph tid) else ph t

  unfoldable pub spec_stop : Output → Option (ℕ × Registers) → (ℕ → Bool) → Run Call (ℕ → Bool)
  spec_stop out none ph = return ph
  spec_stop out (some (tid, state)) ph = do
    put (call read)
    put (call read)
    write_lines numbers out (line numbers tid state (ph tid) ∷ [])
    return (update tid state ph)

  -- The loop over the view: each stop prints one line, of the kind that the thread's phase says.
  unfoldable pub spec_loop : Output → List Round → (ℕ → Bool) → Run Call (Option ℕ)
  spec_loop out [] ph = return none
  spec_loop out (round ∷ rounds) ph = do
    put (call poll)
    when round.poll_fails (fail (codes "strace: Could not poll"))
    ph' ← spec_stop out round.stop_read ph
    put (call waitpid)
    elim round.exited [ some status ↦ return (some status) | none ↦ spec_loop out rounds ph' ]

  phases-settle :
      (tid : ℕ) (state : Registers) (infos : List ThreadInfo)
      → phases (settle numbers tid state infos) ≡ update tid state (phases infos)
  unfolding phases update
  phases-settle tid state infos =
      fun_ext λ t. rw (phase?-settle numbers t tid state infos) (unfold expects in ground arith)

  finish_stop-write_lines :
      {B : Type 0} (out : Output) (text : Option Bytes) (infos : List ThreadInfo) (ph : ℕ → Bool)
      (k : List ThreadInfo → Run Call B) (k' : (ℕ → Bool) → Run Call B) (log : Log Call)
      → ((log' : Log Call) → k infos log' ≡ k' ph log')
      → (finish_stop numbers out (handled infos (text ∷ [])) >>= k) log
        ≡ ((write_lines numbers out (text ∷ []) >> return ph) >>= k') log
  unfolding finish_stop write_lines
  finish_stop-write_lines out none infos ph k k' log same = refl
  finish_stop-write_lines out (some text) infos ph k k' log same = same _

  -- One stop, whatever comes after it.
  handle_stop-spec_stop :
      {B : Type 0} (out : Output) (grows : Bool) (stop : Option (ℕ × Registers))
      (infos : List ThreadInfo) (k : List ThreadInfo → Run Call B) (k' : (ℕ → Bool) → Run Call B)
      (log : Log Call)
      → grows ≡ true
      → IsDistinct infos
      → ((infos' : List ThreadInfo) (log' : Log Call)
          → IsDistinct infos'
          → k infos' log' ≡ k' (phases infos') log')
      → (handle_stop numbers out grows stop infos >>= k) log
        ≡ (spec_stop out stop (phases infos) >>= k') log
  unfolding handle_stop spec_stop phases
  handle_stop-spec_stop out grows none infos k k' log e d same = same infos log d
  handle_stop-spec_stop out grows (some (tid, state)) infos k k' log e d same =
      rw (e, printer_lem numbers 0 tid state infos d, ← phases-settle tid state infos)
        (finish_stop-write_lines out (line numbers tid state (phases infos tid))
          (settle numbers tid state infos) (phases (settle numbers tid state infos)) k k' _
          (λ log'.
            same (settle numbers tid state infos) log'
              (settle-IsDistinct numbers tid state infos d)))

  -- What follows `waitpid`.
  abbrev or_go_on : Option ℕ → Run Call (Option ℕ) → Run Call (Option ℕ)
  or_go_on exited m = elim exited [ some status ↦ return (some status) | none ↦ m ]

  or_go_on_congr :
      (exited : Option ℕ) (m m' : Run Call (Option ℕ)) (log : Log Call)
      → m log ≡ m' log
      → or_go_on exited m log ≡ or_go_on exited m' log
  or_go_on_congr none m m' log e = e
  or_go_on_congr (some status) m m' log e = refl

  -- From an array that lists no thread twice, and where `realloc` never fails, the loop over the
  -- array runs as the loop over the view does, with the same calls, the same lines and the same
  -- end, for every sequence of stops of any threads.
  pub trace_loop-spec_loop :
      (out : Output) (rounds : List Round) (infos : List ThreadInfo) (log : Log Call)
      → IsDistinct infos
      → All (λ (r : Round). r.grows ≡ true) rounds
      → trace_loop numbers out rounds infos log ≡ spec_loop out rounds (phases infos) log
  unfolding trace_loop spec_loop
  trace_loop-spec_loop out [] infos log d g = refl
  trace_loop-spec_loop out (round ∷ rounds) infos log d (g, gs) =
      bind_congr (when round.poll_fails (fail (codes "strace: Could not poll"))) _ _ _ λ _ log'.
        handle_stop-spec_stop out round.grows round.stop_read infos
          (λ infos'.
            put (call waitpid) >> or_go_on round.exited (trace_loop numbers out rounds infos'))
          (λ ph'. put (call waitpid) >> or_go_on round.exited (spec_loop out rounds ph')) log' g d
          λ infos' log'' d'.
            or_go_on_congr round.exited _ _ _
              (trace_loop-spec_loop out rounds infos' (log'' ++ (call waitpid ∷ [])) d' gs)
