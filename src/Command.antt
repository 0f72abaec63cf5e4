-- ===== src/Command.antt =====
-- cmd/vkg/main.go: the choice of the subcommand, and the exit status. What the flag package makes of the
-- arguments, the texts of the two PrintDefaults, and the two Run functions are arguments.
pub mod Endings
use vanitykeygen.Common.{
  ℕ, String, Bool, true, false, eq_iff, ap, subst, false≢true, arith, List, [], ◌∷◌, ◌==◌,
  if◌then◌else◌, ◌≡◌, refl, Bool-cases, inl, inr,
}
use vanitykeygen.Runtime.{Outcome, ok, err}
use vanitykeygen.Text.{append}

-- setupLogger
pub data Level : Type 0 where
  level_info level_debug : Level

unfoldable pub setup_logger : Bool → Level
setup_logger verbose = if verbose then level_debug else level_info

-- What a process leaves: its exit status, and what this file prints.
pub record Exit : Type 0 where
  pub code : ℕ
  pub out : List String
  pub error : List String

-- How run, or a subcommand, ends: the process ends in it, or it returns its result, after these lines. The
-- flag sets of the subcommands have flag.ExitOnError, with which the flag package ends the process, with 2
-- for arguments that it does not know and with 0 for a request for help; a panic ends it with 2 too.
pub data Ran : Type 0 where
  exits : Exit → Ran
  returns : List String → Outcome String (Unit {0}) → Ran

pub record Parts : Type 0 where
  pub server_defaults : String
  pub client_defaults : String
  pub git_version : String
  pub run_server : Level → List String → Ran
  pub run_client : Level → List String → Ran

module _ (parts : Parts) where
  -- usage
  unfoldable pub usage : Exit
  usage = record {
    code = 0;
    out =
        "usage: vkg <command> [options]\n" ∷ "\n" ∷ "commands:\n"
        ∷ "  server    Start the VKG server\n" ∷ "  client    Start a VKG client\n"
        ∷ "  version   Show version info\n" ∷ "\n" ∷ "server options:\n" ∷ "\n"
        ∷ "client options:\n" ∷ [];
    error = parts.server_defaults ∷ parts.client_defaults ∷ [];
  }

  -- run, on the verbosity and the arguments that the global flags leave, or their error
  unfoldable pub run : Outcome String (Bool × List String) → Ran
  unfolding usage setup_logger
  run (err e) = returns [] (err e)
  run (ok (verbose, [])) = exits usage
  run (ok (verbose, cmd ∷ args)) =
      if cmd == "server"
      then parts.run_server (setup_logger verbose) args
      else if cmd == "client"
      then parts.run_client (setup_logger verbose) args
      else if cmd == "version"
      then returns (append "vkg " (append parts.git_version "\n") ∷ []) (ok tt)
      else exits usage

  abbrev pub leaves : Ran → Exit
  leaves (exits e) = e
  leaves (returns out (ok u)) = record { code = 0; out = out; error = [] }
  leaves (returns out (err e)) = record {
    code = 1;
    out = out;
    error = append "error: " (append e "\n") ∷ [];
  }

  -- main
  unfoldable pub main : Outcome String (Bool × List String) → Exit
  unfolding run
  main flags = leaves (run flags)

  -- The flags name a subcommand, server or client, and this is how it ended.
  pub data IsCalled (flags : Outcome String (Bool × List String)) (r : Ran) : Type 0 where
    server_called :
        (verbose : Bool) (args : List String)
        → flags ≡ ok (verbose, "server" ∷ args)
        → r ≡ parts.run_server (setup_logger verbose) args
        → IsCalled flags r
    client_called :
        (verbose : Bool) (args : List String)
        → flags ≡ ok (verbose, "client" ∷ args)
        → r ≡ parts.run_client (setup_logger verbose) args
        → IsCalled flags r

  -- An error of the global flags or of the subcommand that they name.
  pub data IsFailure (flags : Outcome String (Bool × List String)) (e : String) : Type 0 where
    bad_flags : flags ≡ err e → IsFailure flags e
    subcommand_fails :
        (out : List String) → IsCalled flags (returns out (err e)) → IsFailure flags e

  -- How main ends: with the error on the standard error and 1; as the subcommand ended the process; or
  -- with 0 where neither was.
  pub data Ends (flags : Outcome String (Bool × List String)) : Type 0 where
    failed :
        (e : String)
        → IsFailure flags e
        → (main flags).code ≡ 1
        → (main flags).error ≡ append "error: " (append e "\n") ∷ []
        → Ends flags
    left : (x : Exit) → IsCalled flags (exits x) → main flags ≡ x → Ends flags
    fine :
        ((e : String) → IsFailure flags e → ⊥)
        → ((x : Exit) → IsCalled flags (exits x) → ⊥)
        → (main flags).code ≡ 0
        → Ends flags
