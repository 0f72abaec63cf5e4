-- ===== src/Command/Endings.antt =====
-- cmd/vkg/main.go: the exit status.
use vanitykeygen.Common.{
  String, Bool, true, false, eq_iff, ap, subst, false≢true, arith, List, [], ◌∷◌, ◌==◌, ◌≡◌, refl,
  Bool-cases, inl, inr,
}
use vanitykeygen.Runtime.{Outcome, ok, err}
use vanitykeygen.Command.{
  Parts, Ran, exits, returns, setup_logger, run, leaves, main, IsCalled, IsFailure, Ends,
}

module _ (parts : Parts) where
  called :
      (verbose : Bool) (args : List String) (r : Ran)
      → run parts (ok (verbose, args)) ≡ r
      → IsCalled parts (ok (verbose, args)) r
      → ((r' : Ran) → IsCalled parts (ok (verbose, args)) r' → r' ≡ r)
      → Ends parts (ok (verbose, args))
  unfolding main
  called verbose args (exits x) ran to from = Ends.left x to (ap (leaves parts) ran)
  called verbose args (returns out (err e)) ran to from =
      Ends.failed e (IsFailure.subcommand_fails out to) (rw ran refl) (rw ran refl)
  called verbose args (returns out (ok u)) ran to from =
      Ends.fine no_failure (λ x c. (let wrong = from (exits x) c in cc)) (rw ran refl)
    where
      no_failure : (e : String) → IsFailure parts (ok (verbose, args)) e → ⊥
      no_failure e (IsFailure.bad_flags h) = cc
      no_failure e (IsFailure.subcommand_fails out' c) =
          let wrong = from (returns out' (err e)) c in cc

  uncalled :
      (verbose : Bool) (args : List String)
      → ((r : Ran) → IsCalled parts (ok (verbose, args)) r → ⊥)
      → (main parts (ok (verbose, args))).code ≡ 0
      → Ends parts (ok (verbose, args))
  uncalled verbose args never good = Ends.fine no_failure (λ x c. never (exits x) c) good
    where
      no_failure : (e : String) → IsFailure parts (ok (verbose, args)) e → ⊥
      no_failure e (IsFailure.bad_flags h) = cc
      no_failure e (IsFailure.subcommand_fails out c) = never (returns out (err e)) c

  no_command : (r : Ran) (verbose : Bool) → IsCalled parts (ok (verbose, [])) r → ⊥
  no_command r verbose (IsCalled.server_called v args h e) = cc
  no_command r verbose (IsCalled.client_called v args h e) = cc

  -- the two subcommands that are called
  other_command :
      (r : Ran) (verbose : Bool) (cmd : String) (args : List String)
      → (cmd == "server") ≡ false
      → (cmd == "client") ≡ false
      → IsCalled parts (ok (verbose, cmd ∷ args)) r
      → ⊥
  other_command r verbose cmd args s c (IsCalled.server_called v bs h e) =
      let same : cmd ≡ "server" = cc in ground (arith, s, eq_iff cmd "server")
  other_command r verbose cmd args s c (IsCalled.client_called v bs h e) =
      let same : cmd ≡ "client" = cc in ground (arith, c, eq_iff cmd "client")

  server_ends :
      (r : Ran) (verbose : Bool) (cmd : String) (args : List String)
      → (cmd == "server") ≡ true
      → IsCalled parts (ok (verbose, cmd ∷ args)) r
      → r ≡ parts.run_server (setup_logger verbose) args
  server_ends r verbose cmd args s (IsCalled.server_called v bs h e) =
      let v_eq : v ≡ verbose = cc in let as_eq : bs ≡ args = cc in rw (← v_eq, ← as_eq) e
  server_ends r verbose cmd args s (IsCalled.client_called v bs h e) =
      let same : cmd ≡ "client" = cc in
      absurd (false≢true (subst (λ x. (x == "server") ≡ true) same s))

  client_ends :
      (r : Ran) (verbose : Bool) (cmd : String) (args : List String)
      → (cmd == "client") ≡ true
      → IsCalled parts (ok (verbose, cmd ∷ args)) r
      → r ≡ parts.run_client (setup_logger verbose) args
  client_ends r verbose cmd args c (IsCalled.client_called v bs h e) =
      let v_eq : v ≡ verbose = cc in let as_eq : bs ≡ args = cc in rw (← v_eq, ← as_eq) e
  client_ends r verbose cmd args c (IsCalled.server_called v bs h e) =
      let same : cmd ≡ "server" = cc in
      absurd (false≢true (subst (λ x. (x == "client") ≡ true) same c))

  named :
      (verbose : Bool) (cmd name : String) (args : List String)
      → (cmd == name) ≡ true
      → ◌≡◌ {A = Outcome String (Bool × List String)}
          (ok (verbose, cmd ∷ args))
          (ok (verbose, name ∷ args))
  named verbose cmd name args h = ap (λ x. ok (verbose, x ∷ args)) ((eq_iff cmd name).0 h)

  -- main exits with 1 and one line `error: ` with the text on the standard error, where the global
  -- flags do not parse or the named subcommand, server or client, returns an error; where the named
  -- subcommand ends the process itself, as for flags that it does not know, main ends so; in every
  -- other case it exits with 0.
  pub main-Ends : (flags : Outcome String (Bool × List String)) → Ends parts flags
  unfolding main run
  main-Ends (err e) = Ends.failed e (IsFailure.bad_flags refl) refl refl
  main-Ends (ok (verbose, [])) = uncalled verbose [] (λ r. no_command r verbose) refl
  main-Ends (ok (verbose, cmd ∷ args)) = elim (Bool-cases (cmd == "server")) [
    | inl server ↦
        called verbose (cmd ∷ args) (parts.run_server (setup_logger verbose) args)
          (rw (run, server) refl)
          (IsCalled.server_called verbose args (named verbose cmd "server" args server) refl)
          (λ r. server_ends r verbose cmd args server)
    | inr unserver ↦ elim (Bool-cases (cmd == "client")) [
      | inl client ↦
          called verbose (cmd ∷ args) (parts.run_client (setup_logger verbose) args)
            (rw (run, unserver, client) refl)
            (IsCalled.client_called verbose args (named verbose cmd "client" args client) refl)
            (λ r. client_ends r verbose cmd args client)
      | inr unclient ↦ elim (Bool-cases (cmd == "version")) [
        | inl version ↦
            uncalled verbose (cmd ∷ args) (λ r. other_command r verbose cmd args unserver unclient)
              (rw (main, run, unserver, unclient, version) refl)
        | inr unknown ↦
            uncalled verbose (cmd ∷ args) (λ r. other_command r verbose cmd args unserver unclient)
              (rw (main, run, unserver, unclient, unknown) refl)
      ]
    ]
  ]
