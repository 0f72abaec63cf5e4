-- ===== src/Server/Requests/Replies.antt =====
-- No handler panics: each ends with a reply and leaves the hub sound.
use vanitykeygen.Common.{String, Option, List, ◌≢◌, Bool, true, false}
use vanitykeygen.Vkg.{zero_time, Target, Match, RegisterRequest, Heartbeat, summary}
use vanitykeygen.Runtime.{Env, Payload, Outcome, ok, err}
use vanitykeygen.Store.{Store}
use vanitykeygen.Store.{now, id_or_new}
use vanitykeygen.Store.Targets.{
  list_targets, list_active_targets, delete_target, get_target, create_target, update_target,
}
use vanitykeygen.Store.Matches.{record_match, list_matches, get_match, match_count}
use vanitykeygen.Store.Clients.{upsert_client, list_clients}
use vanitykeygen.Server.Compile.{Config}
use vanitykeygen.Server.TargetRoutes.{
  handle_list_targets, handle_get_target, handle_get_active_targets, handle_delete_target,
  missing_or_gone, handle_create_target, handle_update_target, required, or_not_found,
}
use vanitykeygen.Server.MatchRoutes.{
  handle_list_matches, handle_get_match, handle_post_match, attribute_match, attributing, received,
  attributed,
}
use vanitykeygen.Server.ClientRoutes.{
  handle_register, handle_heartbeat, handle_list_clients, handle_stats, handle_version,
}
use vanitykeygen.Server.Requests.{Request, route}
use vanitykeygen.Hub.Safety.{IsSound}
use vanitykeygen.Server.{
  Server, Reply, aborted, Body, error, internal, serve, finish, read_json, require,
}
use vanitykeygen.Server.Requests.Answers.{
  Ends, Answers, IsAny, IsReply, bind-Answers, replies, asks-Answers, read_json-Answers,
  require-Answers, or_not_found-Answers, internals, announces-Answers, finds-Answers,
  save_checked-Answers,
}

module _ (env : Env) where
  create-Answers : (body : Option Target) → Answers IsReply (handle_create_target env body)
  unfolding handle_create_target
  create-Answers body = bind-Answers IsReply (read_json body) _ (read_json-Answers body) λ sent.
      let t : Target = record sent { id = ""; created_at = zero_time } in
      save_checked-Answers env t (create_target env t) Payload.target 201 Body.target

  update-Answers :
      (id : String) (body : Option Target) → Answers IsReply (handle_update_target env id body)
  unfolding handle_update_target
  update-Answers id body = asks-Answers IsReply (get_target env id) internal _ internals λ found.
      bind-Answers IsReply (or_not_found "target not found" found) _
        (or_not_found-Answers "target not found" found)
        λ existing. bind-Answers IsReply (read_json body) _ (read_json-Answers body) λ sent.
          let t : Target = record sent { id = id; created_at = existing.created_at } in
          bind-Answers IsReply (require (required "type is required" t.type)) _
            (require-Answers (required "type is required" t.type))
            λ u.
              save_checked-Answers env t (update_target env t) (λ u. Payload.target t) 200
                (λ u. Body.target t)

  missing_or_gone-Answers : (b : Bool) → Answers IsAny (missing_or_gone env b)
  missing_or_gone-Answers false s h = (h, replies 404 (error "target not found"))
  missing_or_gone-Answers true s h = (h, tt)

  delete-Answers : (id : String) → Answers IsReply (handle_delete_target env id)
  unfolding handle_delete_target
  delete-Answers id = asks-Answers IsReply (delete_target env id) internal _ internals λ r.
      bind-Answers IsReply (missing_or_gone env (r.1)) _ (missing_or_gone-Answers (r.1))
        λ u. announces-Answers env "target_update" (Payload.deleted id) 204 Body.no_content

  attribute_match-Answers : (m : Match) → Answers IsAny (attribute_match env m)
  unfolding attribute_match
  attribute_match-Answers m s h =
      (go (list_active_targets env s.store).0 (list_active_targets env s.store).1, tt)
    where
      go :
          (o : Outcome String (List Target)) (store : Store)
          → IsSound (attributing env m (o, store) s).1.hub
      go (err e) store = h
      go (ok ts) store = h

  post_match-Answers : (body : Option Match) → Answers IsReply (handle_post_match env body)
  unfolding handle_post_match
  post_match-Answers body = bind-Answers IsReply (read_json body) _ (read_json-Answers body) λ sent.
      bind-Answers IsReply (attribute_match env (received sent)) _
        (attribute_match-Answers (received sent))
        λ tid.
          asks-Answers IsReply (record_match env (attributed tid (received sent))) internal _
            internals
            λ recorded.
              announces-Answers env "match" (Payload.matched (summary recorded)) 201
                (Body.match recorded)

  register-Answers : (body : Option RegisterRequest) → Answers IsReply (handle_register env body)
  unfolding handle_register
  register-Answers body = bind-Answers IsReply (read_json body) _ (read_json-Answers body) λ req.
      asks-Answers IsReply (id_or_new env req.client_id) _ _
        (λ e. replies 500 (error "failed to generate client ID"))
        λ id. asks-Answers IsReply (now env) internal _ internals λ seen.
          asks-Answers IsReply (upsert_client env _) internal _ internals λ c.
            announces-Answers env "client_update" (Payload.client c) 201
              (Body.registered (record { client_id = c.id }))

  heartbeat-Answers : (body : Option Heartbeat) → Answers IsReply (handle_heartbeat env body)
  unfolding handle_heartbeat
  heartbeat-Answers body = bind-Answers IsReply (read_json body) _ (read_json-Answers body) λ hb.
      bind-Answers IsReply (require (required "client_id is required" hb.client_id)) _
        (require-Answers (required "client_id is required" hb.client_id))
        λ u. asks-Answers IsReply (now env) internal _ internals λ seen.
          asks-Answers IsReply (upsert_client env _) internal _ internals
            λ c. announces-Answers env "client_update" (Payload.client c) 204 Body.no_content

  route-Answers : (config : Config) (r : Request) → Answers IsReply (route env config r)
  unfolding route handle_list_targets handle_get_target handle_get_active_targets
      handle_list_matches handle_get_match handle_list_clients handle_stats handle_version
  route-Answers config (Request.list_targets limit) =
      asks-Answers IsReply (list_targets env) internal _ internals λ ts s h. (h, replies _ _)
  route-Answers config (Request.get_target id) =
      finds-Answers env (get_target env id) "target not found" 200 Body.target
  route-Answers config (Request.create_target body) = create-Answers body
  route-Answers config Request.active_targets =
      asks-Answers IsReply (list_active_targets env) internal _ internals λ ts s h. (h, replies _ _)
  route-Answers config Request.version = λ s h. (h, replies _ _)
  route-Answers config Request.stats =
      asks-Answers IsReply (list_clients env) internal _ internals λ cs.
        asks-Answers IsReply (match_count env "") internal _ internals λ n s h. (h, replies _ _)
  route-Answers config (Request.update_target id body) = update-Answers id body
  route-Answers config (Request.delete_target id) = delete-Answers id
  route-Answers config (Request.list_matches id limit) =
      asks-Answers IsReply (list_matches env id _) internal _ internals λ ms s h. (h, replies _ _)
  route-Answers config (Request.get_match id) =
      finds-Answers env (get_match env id) "match not found" 200 Body.match
  route-Answers config (Request.post_match body) = post_match-Answers body
  route-Answers config (Request.register body) = register-Answers body
  route-Answers config (Request.heartbeat body) = heartbeat-Answers body
  route-Answers config (Request.list_clients limit) =
      asks-Answers IsReply (list_clients env) internal _ internals λ cs s h. (h, replies _ _)

  finish-reply :
      (r : Outcome Reply Reply × Server)
      → IsSound r.1.hub × Ends IsReply r.0
      → IsSound (finish r).1.hub × ((finish r).0 ≢ aborted)
  finish-reply (ok a, s) h = h
  finish-reply (err e, s) h = h

  -- From a server whose hub is sound, every request to the API's routes, whatever fails in it, is
  -- answered with a reply and not by a panic, and the hub is sound afterwards.
  pub serve-replies :
      (config : Config) (r : Request) (s : Server)
      → IsSound s.hub
      → IsSound (serve (route env config r) s).1.hub × ((serve (route env config r) s).0 ≢ aborted)
  serve-replies config r s h = finish-reply (route env config r s) (route-Answers config r s h)
