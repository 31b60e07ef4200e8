-- ===== src/Mount/Main/Laws.antt =====
-- Runs of `main` of src/mount.c from its arguments to the calls of `mount`.
use Prim.Native.Nat.{bit_and}
use util_ironclad.Base.{
  ℕ, ℤ, ◌∙◌, pos, true, false, none, some, List, [], ◌∷◌, ◌==ℤ◌, if◌then◌else◌, ◌≡◌, arith, ◌==◌,
  not, inl, inr, Option-cases,
}
use util_ironclad.Libc.Text.{Bytes, codes, strtok}
use util_ironclad.Libc.Getopt.{getopt}
use util_ironclad.Libc.Getopt.Laws.{IsOperand, scan_operand}
use util_ironclad.Run.{
  Run, Log, next, exit, stderr, return, stop, fail, while_getopt, bind_congr, ◌>>=◌, ◌>>◌,
}
use util_ironclad.Mount.Listing.{update_mtab}
use util_ironclad.Mount.Kinds.{Constants, string_to_type}
use util_ironclad.Mount.Flags.{add_flags}
use util_ironclad.Mount.Flags.Laws.{
  HasBits, any, begins_ro, is_known, add_flags_rdonly, add_flags-eq-none_iff,
}
use util_ironclad.Mount.System.{System, Call}
use util_ironclad.Mount.Main.{
  Settings, defaults, dup, on_opt, on_bad, operands, mounting, mount_both, dispatch, finish, main,
}

-- How a run ends by the result of its last mount: with the message and status 1 where that failed, else
-- with the update of /etc/mtab, whatever comes of it, and status 0.
abbrev pub ended : Constants → System → ℤ → Run Call (Unit {0})
ended k sys ret =
    if ret ==ℤ pos 0
    then update_mtab k sys >> stop (pos 0)
    else fail (codes "mount: Could not mount")

finish-ended :
    (k : Constants) (sys : System) (ret : ℤ) (log : Log Call)
    → finish k sys ret log ≡ ended k sys ret log
unfolding finish
finish-ended k sys ret log = ground arith

module _ (k : Constants) (sys : System) (package_version : Bytes) where
  on_opt_type :
      (type : Bytes) (s : Settings) (log : Log Call)
      → sys.has_memory log ≡ true
      → on_opt k sys package_version b't' type s log ≡ (next (record s { type = some type }), log)
  unfolding on_opt dup
  on_opt_type type s log m = ground arith

  on_opt_flags :
      (words : Bytes) (s : Settings) (flags : ℕ) (log : Log Call)
      → add_flags k (strtok words (codes ",")) s.flags ≡ some flags
      → on_opt k sys package_version b'f' words s log ≡ (next (record s { flags = flags }), log)
  unfolding on_opt
  on_opt_flags words s flags log f = rw f

  operands_two :
      (source target : Bytes) (log : Log Call)
      → sys.has_memory log ≡ true
      → operands k sys (source ∷ target ∷ []) none none log ≡ (next (some source, some target), log)
  unfolding operands dup
  operands_two source target log m = ground arith

  -- The options of a run with `-t` and `-f`.
  typed_options :
      (type words source target : Bytes) (flags : ℕ)
      → sys.has_memory [] ≡ true
      → IsOperand source
      → add_flags k (strtok words (codes ",")) 0 ≡ some flags
      → while_getopt
          (on_opt k sys package_version)
          (on_bad k sys)
          (getopt (codes "hvt:af:") (codes "-t" ∷ type ∷ codes "-f" ∷ words ∷ source ∷ target ∷ []))
          defaults
          []
        ≡ (
          next (
            record { type = some type; mount_fstab = false; flags = flags },
            source ∷ target ∷ [],
          ),
          [],
        )
  unfolding while_getopt getopt codes
  typed_options type words source target flags m s f =
      rw (scan_operand (codes "hvt:af:") source (target ∷ []) s) (
        ground (
          arith,
          on_opt_type type defaults [] m,
          on_opt_flags words (record defaults { type = some type }) flags [] f,
        ))

  -- With `-t`, and with words of `-f` that are known, a source that is no option, and memory for the
  -- copies, the flags of `-f` are not passed on: the run is the one that mounts with no flags, and ends
  -- with the message and status 1 if that fails, else with the update of /etc/mtab and status 0.
  pub main_typed :
      (type words source target : Bytes) (flags : ℕ)
      → sys.has_memory [] ≡ true
      → IsOperand source
      → add_flags k (strtok words (codes ",")) 0 ≡ some flags
      → main k sys package_version
          (codes "-t" ∷ type ∷ codes "-f" ∷ words ∷ source ∷ target ∷ [])
          []
        ≡ (mounting k sys source target (string_to_type k type) 0 >>= ended k sys) []
  unfolding main dispatch mount_both
  main_typed type words source target flags m s f =
      let mounted : Run Call ℤ = mounting k sys source target (string_to_type k type) 0 in
      ground
        (arith, typed_options type words source target flags m s f, operands_two source target [] m)
      ∙ bind_congr {C = Call} {A = ℤ} {B = Unit {0}} mounted (finish k sys) (ended k sys) []
          (finish-ended k sys)

  flag_options :
      (words source target : Bytes) (flags : ℕ)
      → IsOperand source
      → add_flags k (strtok words (codes ",")) 0 ≡ some flags
      → while_getopt
          (on_opt k sys package_version)
          (on_bad k sys)
          (getopt (codes "hvt:af:") (codes "-f" ∷ words ∷ source ∷ target ∷ []))
          defaults
          []
        ≡ (
          next (record { type = none; mount_fstab = false; flags = flags }, source ∷ target ∷ []),
          [],
        )
  unfolding while_getopt getopt codes
  flag_options words source target flags s f =
      rw (scan_operand (codes "hvt:af:") source (target ∷ []) s)
        (ground (arith, on_opt_flags words defaults flags [] f))

  -- With no `-t`, and with words of `-f` that are known, a source that is no option, and memory for the
  -- copies, the run is the one that mounts as EXT with the flags, mounts as FAT with the same
  -- flags if that fails, and ends by the last result: with the message and status 1 if that is not 0,
  -- else with the update of /etc/mtab and status 0.
  pub main_untyped :
      (words source target : Bytes) (flags : ℕ)
      → sys.has_memory [] ≡ true
      → IsOperand source
      → add_flags k (strtok words (codes ",")) 0 ≡ some flags
      → main k sys package_version (codes "-f" ∷ words ∷ source ∷ target ∷ []) []
        ≡ ((mounting k sys source target k.mnt_ext flags >>= (λ ret.
                if ret ==ℤ pos 0 then return ret else mounting k sys source target k.mnt_fat flags))
              >>= ended k sys)
            []
  unfolding main dispatch mount_both
  main_untyped words source target flags m s f =
      let mounted : Run Call ℤ = mounting k sys source target k.mnt_ext flags >>= (λ ret.
        if ret ==ℤ pos 0 then return ret else mounting k sys source target k.mnt_fat flags) in
      ground (arith, flag_options words source target flags s f, operands_two source target [] m)
      ∙ bind_congr {C = Call} {A = ℤ} {B = Unit {0}} mounted (finish k sys) (ended k sys) []
          (finish-ended k sys)

  -- Without `-t`, where each flag has a bit of its own, every word of `-f` is known, the source is no
  -- option, and there is memory for the copies: the flags with which the run tries to mount as EXT, and
  -- as FAT if that fails, have the read-only bit exactly if some word begins with "ro".
  pub main_rdonly :
      (words source target : Bytes)
      → HasBits k
      → sys.has_memory [] ≡ true
      → IsOperand source
      → any (λ tok. not (is_known tok)) (strtok words (codes ",")) ≡ false
      → (flags : ℕ) × (main k sys package_version (codes "-f" ∷ words ∷ source ∷ target ∷ []) []
          ≡ ((mounting k sys source target k.mnt_ext flags >>= (λ ret.
                  if ret ==ℤ pos 0
                  then return ret
                  else mounting k sys source target k.mnt_fat flags))
                >>= ended k sys)
              [])
        × ((bit_and flags k.ms_rdonly == 0) ≡ not (any begins_ro (strtok words (codes ","))))
  main_rdonly words source target bits m s known =
      let toks : List Bytes = strtok words (codes ",") in
      elim (Option-cases (add_flags k toks 0)) [
        | inl e ↦ absurd (ground (arith, (add_flags-eq-none_iff k toks 0).0 e))
        | inr (flags, e) ↦ (
          flags,
          main_untyped words source target flags m s e,
          add_flags_rdonly k bits toks flags e,
        )
      ]

  -- Words of `-f` that are not all recognised end the run with status 1 before any call of the system.
  pub main_refused :
      (words : Bytes) (args : List Bytes)
      → add_flags k (strtok words (codes ",")) 0 ≡ none
      → main k sys package_version (codes "-f" ∷ words ∷ args) []
        ≡ (exit (pos 1), stderr (codes "mount: unrecognized flag") ∷ [])
  unfolding main while_getopt getopt codes on_opt
  main_refused words args f = ground arith
