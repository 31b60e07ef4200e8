-- ===== src/Execmac/Main/Laws.antt =====
-- Runs of `main` of src/execmac.c from its arguments to the start of the command.
use util_ironclad.Base.{ℕ, pos, none, some, List, [], ◌∷◌, ◌++◌, if◌then◌else◌, ◌≡◌, arith}
use util_ironclad.Libc.Text.{Bytes, codes}
use util_ironclad.Libc.Getopt.{getopt}
use util_ironclad.Libc.Getopt.Laws.{IsOperand, scan_operand}
use util_ironclad.Run.{Log, next, exit, replaced, call, stderr, perror, while_getopt}
use util_ironclad.Execmac.Capabilities.{Capability, translate}
use util_ironclad.Execmac.Main.{
  Call, get_mac_capabilities, set_mac_capabilities, fork, execvp, System, on_opt, on_bad,
  child_runs, launch, main,
}

module _ (sys : System) (constant : Capability → ℕ) (package_version : Bytes) where
  abbrev before_set : Log Call
  before_set = call get_mac_capabilities ∷ call fork ∷ []

  abbrev after_set : ℕ → Log Call
  after_set caps = call get_mac_capabilities ∷ call fork ∷ call (set_mac_capabilities caps) ∷ []

  capability_option :
      (words command : Bytes) (args : List Bytes) (caps old : ℕ)
      → IsOperand command
      → translate constant words ≡ some caps
      → while_getopt
          (on_opt sys constant package_version)
          (on_bad sys)
          (getopt (codes "hvc:f:p:") (codes "-c" ∷ words ∷ command ∷ args))
          old
          (call get_mac_capabilities ∷ [])
        ≡ (next (caps, command ∷ args), call get_mac_capabilities ∷ [])
  unfolding while_getopt getopt codes on_opt
  capability_option words command args caps old s e =
      rw (scan_operand (codes "hvc:f:p:") command args s) (ground arith)

  -- The child of a run with words of `-c` that are accepted, and a command that is no option, sets
  -- exactly the capabilities that the words stand for, and starts the command after that. If they
  -- cannot be set it ends with status 1, and the command is not started.
  pub main_child :
      (words command : Bytes) (args : List Bytes) (caps : ℕ)
      → IsOperand command
      → translate constant words ≡ some caps
      → sys.fork_result (call get_mac_capabilities ∷ []) ≡ pos 0
      → main sys constant package_version (codes "-c" ∷ words ∷ command ∷ args) [] ≡ (
          if sys.set_fails caps before_set
          then (
            exit (pos 1),
            after_set caps ++ (perror (codes "execmac: Could not set MAC capabilities") ∷ []),
          )
          else if sys.exec_fails (command ∷ args) (after_set caps)
          then (
            exit (pos 1),
            after_set caps
                ++ (call (execvp (command ∷ args))
                    ∷ perror (codes "execmac: Could not launch program")
                    ∷ []),
          )
          else (replaced, after_set caps ++ (call (execvp (command ∷ args)) ∷ [])))
  unfolding main launch child_runs
  main_child words command args caps s e f =
      ground (arith, capability_option words command args caps (sys.capabilities []) s e)

  -- A bad name in `-c` ends the run with status 1: nothing is set and nothing is started.
  pub main_bad_name :
      (words : Bytes) (args : List Bytes)
      → translate constant words ≡ none
      → main sys constant package_version (codes "-c" ∷ words ∷ args) []
        ≡ (exit (pos 1), call get_mac_capabilities ∷ stderr (codes "execmac: bad cap") ∷ [])
  unfolding main while_getopt getopt codes on_opt
  main_bad_name words args e = ground arith
