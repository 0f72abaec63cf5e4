-- ===== src/Server/Requests/Errors.antt =====
-- A request that is answered with an error has changed no table, and one that only asks changes none.
use vanitykeygen.Common.{false, ◌==◌, ◌≡◌, refl}
use vanitykeygen.Runtime.{Env, Outcome, ok, err}
use vanitykeygen.Store.Integrity.{IsConsistent}
use vanitykeygen.Store.Clean.{rows}
use vanitykeygen.Server.{Server, Reply}
use vanitykeygen.Server.Clean.{IsError, Fails}
use vanitykeygen.Server.Compile.{Config}
use vanitykeygen.Server.{finish, serve}
use vanitykeygen.Server.Requests.{Request, route}
use vanitykeygen.Server.Requests.Reading.{IsReading, route_reading-Keeps}
use vanitykeygen.Server.Requests.Failures.{
  At, handle_create_target-CleanIf, handle_update_target-CleanIf, handle_post_match-CleanIf,
  handle_register-CleanIf, handle_heartbeat-CleanIf, handle_delete_target_lem,
}

-- The ID in the path of a DELETE, which the mux takes to be one or more characters.
abbrev pub HasId : Request → Type 0
HasId (Request.delete_target id) = (id == "") ≡ false
HasId r = Unit {0}

module _ (env : Env) where
  route-Fails :
      (config : Config) (r : Request) (s : Server)
      → IsConsistent s.store
      → HasId r
      → Fails IsError (route env config r s).0
      → rows (route env config r s).1.store ≡ rows s.store
  unfolding route
  route-Fails config (Request.create_target body) s h given =
      handle_create_target-CleanIf env body s
  route-Fails config (Request.update_target id body) s h given =
      handle_update_target-CleanIf env id body s
  route-Fails config (Request.delete_target id) s h given =
      handle_delete_target_lem env id s h given
  route-Fails config (Request.post_match body) s h given = handle_post_match-CleanIf env body s
  route-Fails config (Request.register body) s h given = handle_register-CleanIf env body s
  route-Fails config (Request.heartbeat body) s h given = handle_heartbeat-CleanIf env body s
  route-Fails config (Request.list_targets limit) s h given = λ fails.
      route_reading-Keeps env (At env (rows s.store)) (λ t n same. same) config
        (Request.list_targets limit) tt s refl
  route-Fails config (Request.get_target id) s h given = λ fails.
      route_reading-Keeps env (At env (rows s.store)) (λ t n same. same) config
        (Request.get_target id) tt s refl
  route-Fails config (Request.list_matches id limit) s h given = λ fails.
      route_reading-Keeps env (At env (rows s.store)) (λ t n same. same) config
        (Request.list_matches id limit) tt s refl
  route-Fails config (Request.get_match id) s h given = λ fails.
      route_reading-Keeps env (At env (rows s.store)) (λ t n same. same) config
        (Request.get_match id) tt s refl
  route-Fails config (Request.list_clients limit) s h given = λ fails.
      route_reading-Keeps env (At env (rows s.store)) (λ t n same. same) config
        (Request.list_clients limit) tt s refl
  route-Fails config Request.active_targets s h given = λ fails.
      route_reading-Keeps env (At env (rows s.store)) (λ t n same. same) config
        Request.active_targets tt s refl
  route-Fails config Request.version s h given = λ fails.
      route_reading-Keeps env (At env (rows s.store)) (λ t n same. same) config Request.version tt s
        refl
  route-Fails config Request.stats s h given = λ fails.
      route_reading-Keeps env (At env (rows s.store)) (λ t n same. same) config Request.stats tt s
        refl

  IsError-finish :
      (o : Outcome Reply Reply) (s : Server) → IsError (finish (o, s)).0 → Fails IsError o
  IsError-finish (ok r) s h = h
  IsError-finish (err r) s h = h

  finish-state : (o : Outcome Reply Reply) (s : Server) → (finish (o, s)).1 ≡ s
  finish-state (ok r) s = refl
  finish-state (err r) s = refl

  -- A request that is answered with a status of 400 or more has changed no table, if the IDs in
  -- each table are unique, every match names no target or a stored one, and a DELETE names an ID.
  pub serve-fails_clean :
      (config : Config) (r : Request) (s : Server)
      → IsConsistent s.store
      → HasId r
      → IsError (serve (route env config r) s).0
      → rows (serve (route env config r) s).1.store ≡ rows s.store
  serve-fails_clean config r s h given error =
      rw (finish-state (route env config r s).0 (route env config r s).1) (
        route-Fails config r s h given
          (IsError-finish (route env config r s).0 (route env config r s).1 error))

  -- A GET request to the API's routes changes no table, whatever fails in it.
  pub serve-reads :
      (config : Config) (r : Request) (s : Server)
      → IsReading r
      → rows (serve (route env config r) s).1.store ≡ rows s.store
  serve-reads config r s reading =
      rw (finish-state (route env config r s).0 (route env config r s).1)
        (route_reading-Keeps env (At env (rows s.store)) (λ t n same. same) config r reading s refl)
