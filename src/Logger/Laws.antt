-- ===== src/Logger/Laws.antt =====
-- The message that src/logger.c sends, and the array that it is built in.
use util_ironclad.Base.{
  ℕ, suc, ◌+◌, ◌%◌, ◌<◌, ◌^◌, false, pos, some, List, [], ◌∷◌, ◌++◌, ◌≡◌, refl, ap, ◌∙◌, arith, All,
  length, length-append, take, append_assoc, append-nil,
}
use util_ironclad.Libc.Text.{Bytes, codes, str_eq, strcat}
use util_ironclad.Run.{Log, next, exit, call, bind_next}
use util_ironclad.Logger.{Call, openlog, syslog, closelog, measure, join, seal, send, compose, main}

-- An argument that is neither `-h` nor `-v`.
abbrev pub IsPlain : Bytes → Type 0
IsPlain arg = (str_eq arg (codes "-h") ≡ false) × (str_eq arg (codes "-v") ≡ false)

-- The arguments with one space between them.
unfoldable pub unwords : Bytes → List Bytes → Bytes
unwords arg [] = arg
unwords arg (next_arg ∷ args) = arg ++ (32 ∷ unwords next_arg args)

-- The bytes of the arguments, one space after each.
abbrev pub need : List Bytes → ℕ
need [] = 0
need (arg ∷ args) = length arg + 1 + need args

abbrev spaced : List Bytes → Bytes
spaced [] = []
spaced (arg ∷ args) = arg ++ (32 ∷ spaced args)

no_more : (n : ℕ) → n ≡ n + 0
no_more n = omega arith

from_zero : (n : ℕ) → 0 + n ≡ n
from_zero n = omega arith

step_total : (n k m : ℕ) → n + (k + 1 + m) < 2 ^ 64 → (n + (k + 1)) % 2 ^ 64 ≡ n + (k + 1)
step_total n k m h = omega arith

regroup : (n k m : ℕ) → n + (k + 1) + m ≡ n + (k + 1 + m)
regroup n k m = omega arith

measure_lem :
    (package_version : Bytes) (args : List Bytes) (n : ℕ) (log : Log Call)
    → All IsPlain args
    → n + need args < 2 ^ 64
    → measure package_version args n log ≡ (next (n + need args), log)
unfolding measure
measure_lem package_version [] n log p h = ap (λ k. (next k, log)) (no_more n)
measure_lem package_version (arg ∷ args) n log ((ph, pv), p) h =
    rw (ph, measure, pv, step_total n (length arg) (need args) h)
      (measure_lem package_version args (n + (length arg + 1)) log p (omega arith)
        ∙ ap (λ k. (next k, log)) (regroup n (length arg) (need args)))

strcat_lem :
    (size : ℕ) (text more : Bytes)
    → length text + length more < size
    → strcat size text more ≡ some (text ++ more)
unfolding strcat
strcat_lem size text more h = ground arith

rejoin : (a b c : Bytes) → ((a ++ b) ++ (32 ∷ [])) ++ c ≡ a ++ (b ++ (32 ∷ c))
rejoin a b c = rw (append_assoc, append_assoc)

join_lem :
    (size : ℕ) (args : List Bytes) (text : Bytes)
    → length text + need args < size
    → join size args text ≡ some (text ++ spaced args)
unfolding join codes
join_lem size [] text h = rw append-nil
join_lem size (arg ∷ args) text h =
    rw
      (
        strcat_lem size text arg (omega arith),
        join,
        strcat_lem size (text ++ arg) (32 ∷ []) (omega (arith, length-append {0})),
      )
      (join_lem size args ((text ++ arg) ++ (32 ∷ [])) (omega (arith, length-append {0}))
        ∙ ap some (rejoin text arg (spaced args)))

spaced-unwords :
    (arg : Bytes) (args : List Bytes) → spaced (arg ∷ args) ≡ unwords arg args ++ (32 ∷ [])
unfolding unwords
spaced-unwords arg [] = refl
spaced-unwords arg (next_arg ∷ args) =
    ap (λ t. arg ++ (32 ∷ t)) (spaced-unwords next_arg args) ∙ rw append_assoc

need-unwords :
    (arg : Bytes) (args : List Bytes) → need (arg ∷ args) ≡ suc (length (unwords arg args))
unfolding unwords
need-unwords arg [] = omega arith
need-unwords arg (next_arg ∷ args) = omega (arith, length-append {0}, need-unwords next_arg args)

take_front : (u v : Bytes) → take (length u) (u ++ v) ≡ u
take_front [] v = refl
take_front (c ∷ u) v = ap (λ t. c ∷ t) (take_front u v)

whole_size : (n : ℕ) → n + 1 < 2 ^ 64 → (n + 1) % 2 ^ 64 ≡ n + 1
whole_size n h = omega arith

compose_step :
    (n : ℕ) (args : List Bytes) (text message : Bytes)
    → n + 1 < 2 ^ 64
    → join (n + 1) args [] ≡ some text
    → seal n text ≡ some message
    → compose n args ≡ some message
unfolding compose
compose_step n args text message h e f = ground (arith, whole_size n h)

seal_lem :
    (n : ℕ) (text message : Bytes)
    → n ≡ suc (length message)
    → text ≡ message ++ (32 ∷ [])
    → seal n text ≡ some message
unfolding seal
seal_lem n text message e f = rw (e, f, take_front message (32 ∷ []))

compose_lem :
    (arg : Bytes) (args : List Bytes)
    → need (arg ∷ args) + 1 < 2 ^ 64
    → compose (need (arg ∷ args)) (arg ∷ args) ≡ some (unwords arg args)
compose_lem arg args h =
    compose_step (need (arg ∷ args)) (arg ∷ args) (spaced (arg ∷ args)) (unwords arg args) h
      (join_lem (need (arg ∷ args) + 1) (arg ∷ args) [] (omega arith))
      (seal_lem _ _ _ (need-unwords arg args) (spaced-unwords arg args))

-- With at least one argument, none of them `-h` or `-v`, and a size that a `size_t` holds, no write
-- leaves the array, and the message that is sent is the arguments with one space between them.
pub logger_sends :
    (package_version arg : Bytes) (args : List Bytes)
    → All IsPlain (arg ∷ args)
    → need (arg ∷ args) + 1 < 2 ^ 64
    → main package_version (arg ∷ args) []
      ≡ (exit (pos 0), call openlog ∷ call (syslog (unwords arg args)) ∷ call closelog ∷ [])
unfolding main send
logger_sends package_version arg args p h =
    bind_next {C = Call} {A = ℕ} {B = Unit {0}} (measure package_version (arg ∷ args) 0)
      (λ total_size. send (compose total_size (arg ∷ args)))
      (measure_lem package_version (arg ∷ args) 0 [] p (omega arith))
    ∙ ap (λ n. send (compose n (arg ∷ args)) []) (from_zero (need (arg ∷ args)))
    ∙ ap (λ m. send m []) (compose_lem arg args h)
