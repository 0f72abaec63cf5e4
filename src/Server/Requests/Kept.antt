-- ===== src/Server/Requests/Kept.antt =====
-- What a property of the database needs so that every request keeps it: that the store's methods do, as
-- the handlers call them. The theorem is here; a property that has it is an instance.
use vanitykeygen.Common.{String, Option, List, [], ◌∷◌, ◌≡◌, refl, Bool, true, false}
use vanitykeygen.Vkg.{Target, Match, RegisterRequest, Heartbeat, summary}
use vanitykeygen.Runtime.{Env, Payload, Outcome, ok, err, Action, pure, ◌>>=◌, ◌>>◌}
use vanitykeygen.Store.{Store, now, id_or_new}
use vanitykeygen.Store.Targets.{delete_target}
use vanitykeygen.Store.Matches.{record_match}
use vanitykeygen.Store.Clients.{upsert_client}
use vanitykeygen.Server.{
  Server, Reply, reply, Body, with_store, internal, broadcast, finish, read_json,
}
use vanitykeygen.Server.Compile.{Config}
use vanitykeygen.Store.Targets.{get_target}
use vanitykeygen.Server.TargetRoutes.{handle_delete_target, missing_or_gone}
use vanitykeygen.Server.MatchRoutes.{handle_post_match, attribute_match, received, attributed}
use vanitykeygen.Server.ClientRoutes.{handle_register, handle_heartbeat}
use vanitykeygen.Server.TargetRoutes.{
  required, or_not_found, handle_create_target, handle_update_target,
}
use vanitykeygen.Server.Background.{reap}
use vanitykeygen.Server.Requests.{
  Request, route, Happening, request, stream_opens, stream_turns, reaper_tick, happen, happen_all,
}
use vanitykeygen.Common.{ℕ}
use vanitykeygen.Vkg.{ClientInfo, zero_time}
use vanitykeygen.Runtime.{continue}
use vanitykeygen.Store.Calls.{at_call}
use vanitykeygen.Store.Targets.{create_target, update_target}
use vanitykeygen.Server.{require}
use vanitykeygen.Server.Validation.{validate_target_enums, validate_pattern}
use vanitykeygen.Server.Valid.{IsValid}
use vanitykeygen.Runtime.Laws.{Keeps, bind-Keeps}
use vanitykeygen.Server.Requests.Reading.{
  route_reading-Keeps, get_target-Keeps, now-Keeps, id_or_new-Keeps,
}
use vanitykeygen.Server.Keeps.{
  Serves, with_store-Keeps, broadcast-Keeps, require-Keeps, read_json-Keeps, or_not_found-Keeps,
  asks-Keeps, announces-Keeps, required-given,
}

-- handlePostMatch up to its broadcast: attribute the match and record it
abbrev pub post : Env → Match → Action Server Reply Match
post env m =
    attribute_match env m >>= λ tid. with_store (record_match env (attributed tid m)) internal

-- What the methods have to keep. A call that only reads changes the number of the next call.
pub record MethodsKeep (env : Env) (P : Store → Type 0) : Type 0 where
  pub calls : (s : Store) (n : ℕ) → P s → P (at_call s n)
  pub creates : (t : Target) → IsValid env t → Keeps P (create_target env t)
  pub updates : (t : Target) → IsValid env t → Keeps P (update_target env t)
  pub deletes : (id : String) → Keeps P (delete_target env id)
  pub posts : (m : Match) → Keeps (λ (s : Server). P s.store) (post env (received m))
  pub upserts : (c : ClientInfo) → Keeps P (upsert_client env c)
  pub reaps : (s : Store) → P s → P (reap env s)

-- A bind that keeps a property, with a continuation after it.
then-Keeps :
    {S E A B C : Type 0} (P : S → Type 0) (m : Action S E A) (f : A → Action S E B)
    (g : B → Action S E C)
    → Keeps P (m >>= f)
    → ((b : B) → Keeps P (g b))
    → Keeps P (m >>= λ a. f a >>= g)
then-Keeps {S} {E} {A} {B} {C} P m f g kf kg s h = go (m s).0 (m s).1 (kf s h)
  where
    last : (o : Outcome E B) (t : S) → P t → P (continue o g t).1
    last (ok b) t k = kg b t k
    last (err e) t k = k

    go : (o : Outcome E A) (t : S) → P (continue o f t).1 → P (continue o (λ a. f a >>= g) t).1
    go (ok a) t k = last (f a t).0 (f a t).1 k
    go (err e) t k = k

module _ (env : Env) (P : Store → Type 0) (methods : MethodsKeep env P) where
  -- the end that both handlers share
  save_checked-Keeps :
      {A : Type 0} (t : Target) (write : Action Store String A) (payload : A → Payload)
      (answer : A → Reply)
      → (IsValid env t → Keeps P write)
      → Keeps (Serves env P) (do
        require (required "pattern is required" t.pattern)
        require (validate_target_enums env t)
        require (validate_pattern env t)
        stored ← with_store write internal
        broadcast env "target_update" (payload stored)
        pure (answer stored))
  save_checked-Keeps t write payload answer k =
      require-Keeps env P (required "pattern is required" t.pattern) _ λ given.
        require-Keeps env P (validate_target_enums env t) _ λ enums.
          require-Keeps env P (validate_pattern env t) _ λ fine.
            bind-Keeps (Serves env P) (with_store write internal) _
              (with_store-Keeps env P write internal (
                k (record {
                  pattern_given = required-given "pattern is required" t.pattern given;
                  enums = enums;
                  pattern_fine = fine;
                })))
              λ stored.
                bind-Keeps (Serves env P) (broadcast env "target_update" (payload stored)) _
                  (broadcast-Keeps env P "target_update" (payload stored)) λ u s h. h

  handle_create_target-Keeps :
      (body : Option Target) → Keeps (Serves env P) (handle_create_target env body)
  unfolding handle_create_target
  handle_create_target-Keeps body =
      bind-Keeps (Serves env P) (read_json body) _ (read_json-Keeps env P body) λ sent.
        let t : Target = record sent { id = ""; created_at = zero_time } in
        save_checked-Keeps t (create_target env t) Payload.target (λ c. reply 201 (Body.target c))
          (methods.creates t)

  handle_update_target-Keeps :
      (id : String) (body : Option Target) → Keeps (Serves env P) (handle_update_target env id body)
  unfolding handle_update_target
  handle_update_target-Keeps id body =
      bind-Keeps (Serves env P) (with_store (get_target env id) internal) _
        (with_store-Keeps env P (get_target env id) internal
          (get_target-Keeps env P methods.calls id))
        λ found.
          bind-Keeps (Serves env P) (or_not_found "target not found" found) _
            (or_not_found-Keeps env P "target not found" found)
            λ existing.
              bind-Keeps (Serves env P) (read_json body) _ (read_json-Keeps env P body) λ sent.
                let t : Target = record sent { id = id; created_at = existing.created_at } in
                require-Keeps env P (required "type is required" t.type) _ λ typed.
                  save_checked-Keeps t (update_target env t) (λ u. Payload.target t)
                    (λ u. reply 200 (Body.target t)) (methods.updates t)

  handle_post_match-Keeps :
      (body : Option Match) → Keeps (Serves env P) (handle_post_match env body)
  unfolding handle_post_match
  handle_post_match-Keeps body =
      bind-Keeps (Serves env P) (read_json body) _ (read_json-Keeps env P body) λ sent.
        then-Keeps (Serves env P) (attribute_match env (received sent))
          (λ tid. with_store (record_match env (attributed tid (received sent))) internal) _
          (methods.posts sent)
          λ recorded.
            announces-Keeps env P "match" (Payload.matched (summary recorded))
              (reply 201 (Body.match recorded))

  missing_or_gone-Keeps : (b : Bool) → Keeps (Serves env P) (missing_or_gone env b)
  missing_or_gone-Keeps false s h = h
  missing_or_gone-Keeps true s h = h

  handle_delete_target-Keeps : (id : String) → Keeps (Serves env P) (handle_delete_target env id)
  unfolding handle_delete_target
  handle_delete_target-Keeps id =
      asks-Keeps env P (delete_target env id) internal _ (methods.deletes id) λ r.
        bind-Keeps (Serves env P) (missing_or_gone env (r.1)) _ (missing_or_gone-Keeps (r.1)) λ u.
          announces-Keeps env P "target_update" (Payload.deleted id) (reply 204 Body.no_content)

  handle_register-Keeps :
      (body : Option RegisterRequest) → Keeps (Serves env P) (handle_register env body)
  unfolding handle_register
  handle_register-Keeps body =
      bind-Keeps (Serves env P) (read_json body) _ (read_json-Keeps env P body) λ req.
        asks-Keeps env P (id_or_new env req.client_id) _ _
          (id_or_new-Keeps env P methods.calls req.client_id)
          λ id. asks-Keeps env P (now env) internal _ (now-Keeps env P methods.calls) λ seen.
            asks-Keeps env P (upsert_client env _) internal _ (methods.upserts _) λ c.
              announces-Keeps env P "client_update" (Payload.client c)
                (reply 201 (Body.registered (record { client_id = c.id })))

  handle_heartbeat-Keeps :
      (body : Option Heartbeat) → Keeps (Serves env P) (handle_heartbeat env body)
  unfolding handle_heartbeat
  handle_heartbeat-Keeps body =
      bind-Keeps (Serves env P) (read_json body) _ (read_json-Keeps env P body) λ hb.
        require-Keeps env P (required "client_id is required" hb.client_id) _ λ given.
          asks-Keeps env P (now env) internal _ (now-Keeps env P methods.calls) λ seen.
            asks-Keeps env P (upsert_client env _) internal _ (methods.upserts _) λ c.
              announces-Keeps env P "client_update" (Payload.client c) (reply 204 Body.no_content)

  route-Keeps : (config : Config) (r : Request) → Keeps (Serves env P) (route env config r)
  unfolding route
  route-Keeps config (Request.create_target body) = handle_create_target-Keeps body
  route-Keeps config (Request.update_target id body) = handle_update_target-Keeps id body
  route-Keeps config (Request.delete_target id) = handle_delete_target-Keeps id
  route-Keeps config (Request.post_match body) = handle_post_match-Keeps body
  route-Keeps config (Request.register body) = handle_register-Keeps body
  route-Keeps config (Request.heartbeat body) = handle_heartbeat-Keeps body
  route-Keeps config (Request.list_targets limit) =
      route_reading-Keeps env P methods.calls config (Request.list_targets limit) tt
  route-Keeps config (Request.get_target id) =
      route_reading-Keeps env P methods.calls config (Request.get_target id) tt
  route-Keeps config (Request.list_matches id limit) =
      route_reading-Keeps env P methods.calls config (Request.list_matches id limit) tt
  route-Keeps config (Request.get_match id) =
      route_reading-Keeps env P methods.calls config (Request.get_match id) tt
  route-Keeps config (Request.list_clients limit) =
      route_reading-Keeps env P methods.calls config (Request.list_clients limit) tt
  route-Keeps config Request.active_targets =
      route_reading-Keeps env P methods.calls config Request.active_targets tt
  route-Keeps config Request.version =
      route_reading-Keeps env P methods.calls config Request.version tt
  route-Keeps config Request.stats = route_reading-Keeps env P methods.calls config Request.stats tt

  finish-state : (r : Outcome Reply Reply × Server) → (finish r).1 ≡ r.1
  finish-state (ok a, s) = refl
  finish-state (err e, s) = refl

  -- Requests, reaper ticks and event streams, in any order, keep the property.
  pub happen_all-Keeps :
      (config : Config) (hs : List Happening) (s : Server)
      → P s.store
      → P (happen_all env config hs s).store
  unfolding happen_all happen
  happen_all-Keeps config [] s h = h
  happen_all-Keeps config (request r ∷ hs) s h =
      happen_all-Keeps config hs (happen env config (request r) s)
        (rw (happen, finish-state (route env config r s)) (route-Keeps config r s h))
  happen_all-Keeps config (stream_opens flushes writes ∷ hs) s h =
      happen_all-Keeps config hs (happen env config (stream_opens flushes writes) s) h
  happen_all-Keeps config (stream_turns st t ∷ hs) s h =
      happen_all-Keeps config hs (happen env config (stream_turns st t) s) h
  happen_all-Keeps config (reaper_tick ∷ hs) s h =
      happen_all-Keeps config hs (record s { store = reap env s.store }) (methods.reaps s.store h)
