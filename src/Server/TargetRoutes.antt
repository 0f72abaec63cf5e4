-- ===== src/Server/TargetRoutes.antt =====
-- pkg/server/routes_targets.go: the handlers of /api/targets.
-- A handler takes what the request holds: the path's ID, the value of `?limit=`, and what the JSON
-- decoder makes of the body.
use vanitykeygen.Common.{String, Bool, true, false, Option, none, some, ◌==◌, if◌then◌else◌, take}
use vanitykeygen.Vkg.{Target, zero_time}
use vanitykeygen.Runtime.{Env, Payload, ok, err, Action, pure, ◌>>=◌, ◌>>◌}
use vanitykeygen.Store.Targets.{
  create_target, list_targets, get_target, list_active_targets, update_target, delete_target,
}
use vanitykeygen.Server.{
  Server, Reply, reply, Body, Handler, write_error, internal, with_store, read_json, require,
  broadcast,
}
use vanitykeygen.Server.Compile.{Config, compile_patterns}
use vanitykeygen.Server.Validation.{Check, validate_target_enums, validate_pattern}
use vanitykeygen.Server.Limit.{parse_limit}

-- `if x == "" { writeError(400, "… is required") }`
abbrev pub required : String → String → Check
required name value = if value == "" then some name else none

-- `if t == nil { writeError(404, …) }`
abbrev pub or_not_found : {A : Type 0} → String → Option A → Action Server Reply A
or_not_found msg none s = (err (write_error 404 msg), s)
or_not_found msg (some a) s = (ok a, s)

module _ (env : Env) where
  unfoldable pub handle_list_targets : String → Handler
  handle_list_targets limit = do
    ts ← with_store (list_targets env) internal
    pure (reply 200 (Body.targets (take (parse_limit limit 100) ts)))

  unfoldable pub handle_create_target : Option Target → Handler
  handle_create_target body = do
    sent ← read_json body
    let t : Target = record sent { id = ""; created_at = zero_time }
    require (required "pattern is required" t.pattern)
    require (validate_target_enums env t)
    require (validate_pattern env t)
    created ← with_store (create_target env t) internal
    broadcast env "target_update" (Payload.target created)
    pure (reply 201 (Body.target created))

  unfoldable pub handle_get_target : String → Handler
  handle_get_target id = do
    found ← with_store (get_target env id) internal
    t ← or_not_found "target not found" found
    pure (reply 200 (Body.target t))

  unfoldable pub handle_get_active_targets : Config → Handler
  handle_get_active_targets config = do
    ts ← with_store (list_active_targets env) internal
    pure (reply 200 (Body.patterns (compile_patterns env config ts)))

  unfoldable pub handle_update_target : String → Option Target → Handler
  handle_update_target id body = do
    found ← with_store (get_target env id) internal
    existing ← or_not_found "target not found" found
    sent ← read_json body
    let t : Target = record sent { id = id; created_at = existing.created_at }
    require (required "type is required" t.type)
    require (required "pattern is required" t.pattern)
    require (validate_target_enums env t)
    require (validate_pattern env t)
    with_store (update_target env t) internal
    broadcast env "target_update" (Payload.target t)
    pure (reply 200 (Body.target t))

  abbrev pub missing_or_gone : Bool → Action Server Reply (Unit {0})
  missing_or_gone false s = (err (write_error 404 "target not found"), s)
  missing_or_gone true s = (ok tt, s)

  unfoldable pub handle_delete_target : String → Handler
  handle_delete_target id = do
    (matches_deleted, target_deleted) ← with_store (delete_target env id) internal
    missing_or_gone target_deleted
    broadcast env "target_update" (Payload.deleted id)
    pure (reply 204 Body.no_content)
