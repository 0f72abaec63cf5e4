-- ===== src/Server/Requests/Failures.antt =====
-- The handlers that write change no table if they answer with an error.
use vanitykeygen.Common.{
  ℕ, ◌≤◌, String, false, ltb, count, Option, none, some, ◌==◌, ◌≡◌, refl, arith, Bool-cases, inl,
  inr,
}
use vanitykeygen.Vkg.{
  Target, Match, ClientInfo, RegisterRequest, Heartbeat, Time, zero_time, summary,
}
use vanitykeygen.Runtime.{Env, Payload, Action, pure, ◌>>=◌, ◌>>◌}
use vanitykeygen.Store.{Store, now, id_or_new}
use vanitykeygen.Store.Integrity.{IsConsistent}
use vanitykeygen.Store.Targets.{create_target, get_target, update_target}
use vanitykeygen.Store.Targets.Cascade.{delete_target_cases}
use vanitykeygen.Store.Clean.{
  Rows, rows, FailsClean, create_target-FailsClean, record_match-FailsClean,
  upsert_client-FailsClean, update_target-FailsClean, delete_target-none,
}
use vanitykeygen.Server.{
  Server, reply, Body, with_store, broadcast, internal, read_json, require, write_error,
}
use vanitykeygen.Server.Validation.{Check}
use vanitykeygen.Server.Clean.{
  IsError, Fails, Reads, CleanIf, Reads-CleanIf, writes-CleanIf, announces-Succeeds,
  with_store-CleanIf,
}
use vanitykeygen.Server.Keeps.{with_store-Keeps, read_json-Keeps, or_not_found-Keeps}
use vanitykeygen.Server.Validation.{validate_target_enums, validate_pattern}
use vanitykeygen.Server.TargetRoutes.{
  required, or_not_found, handle_create_target, handle_update_target, handle_delete_target,
}
use vanitykeygen.Server.MatchRoutes.{handle_post_match, attribute_match, received, attributed}
use vanitykeygen.Server.ClientRoutes.{handle_register, handle_heartbeat}
use vanitykeygen.Store.Clients.{upsert_client}
use vanitykeygen.Store.Matches.{record_match}
use vanitykeygen.Server.{Handler}
use vanitykeygen.Server.Requests.Reading.{
  get_target-Keeps, now-Keeps, id_or_new-Keeps, attribute_match-store,
}

module _ (env : Env) where
  abbrev pub At : Rows → Store → Type 0
  At r s = rows s ≡ r

  read_json-Reads : {A : Type 0} (body : Option A) → Reads (read_json body)
  read_json-Reads body r = read_json-Keeps env (At r) body

  require-Reads : (c : Check) → Reads (require c)
  require-Reads none r s h = h
  require-Reads (some e) r s h = h

  reading_clean : (m : Handler) → Reads m → CleanIf IsError m
  reading_clean m k s fails = k (rows s.store) s refl

  attribute_match-Reads : (m : Match) → Reads (attribute_match env m)
  attribute_match-Reads m r s h = rw (attribute_match-store env m s) h

  -- the end that both handlers of targets share
  save_checked-CleanIf :
      {A : Type 0} (t : Target) (write : Action Store String A) (payload : A → Payload) (n : ℕ)
      (answer : A → Body)
      → FailsClean write
      → (400 ≤ n → ⊥)
      → CleanIf IsError (do
        require (required "pattern is required" t.pattern)
        require (validate_target_enums env t)
        require (validate_pattern env t)
        stored ← with_store write internal
        broadcast env "target_update" (payload stored)
        pure (reply n (answer stored)))
  save_checked-CleanIf t write payload n answer clean fine =
      Reads-CleanIf IsError (require (required "pattern is required" t.pattern)) _ (require-Reads _)
        λ u. Reads-CleanIf IsError (require (validate_target_enums env t)) _ (require-Reads _) λ u'.
          Reads-CleanIf IsError (require (validate_pattern env t)) _ (require-Reads _) λ u''.
            writes-CleanIf IsError (with_store write internal) _
              (with_store-CleanIf write internal clean)
              λ a. announces-Succeeds env "target_update" (payload a) n (answer a) fine

  pub handle_create_target-CleanIf :
      (body : Option Target) → CleanIf IsError (handle_create_target env body)
  unfolding handle_create_target
  handle_create_target-CleanIf body =
      Reads-CleanIf IsError (read_json body) _ (read_json-Reads body) λ sent.
        let t : Target = record sent { id = ""; created_at = zero_time } in
        save_checked-CleanIf t (create_target env t) Payload.target 201 Body.target
          (create_target-FailsClean env t) (λ h. omega arith)

  pub handle_update_target-CleanIf :
      (id : String) (body : Option Target) → CleanIf IsError (handle_update_target env id body)
  unfolding handle_update_target
  handle_update_target-CleanIf id body =
      Reads-CleanIf IsError (with_store (get_target env id) internal) _
        (λ r.
          with_store-Keeps env (At r) (get_target env id) internal
            (get_target-Keeps env (At r) (λ s n h. h) id))
        λ found.
          Reads-CleanIf IsError (or_not_found "target not found" found) _
            (λ r. or_not_found-Keeps env (At r) "target not found" found)
            λ existing. Reads-CleanIf IsError (read_json body) _ (read_json-Reads body) λ sent.
              let t : Target = record sent { id = id; created_at = existing.created_at } in
              Reads-CleanIf IsError (require (required "type is required" t.type)) _
                (require-Reads _)
                λ u.
                  save_checked-CleanIf t (update_target env t) (λ u. Payload.target t) 200
                    (λ u. Body.target t) (update_target-FailsClean env t) (λ h. omega arith)

  pub handle_post_match-CleanIf :
      (body : Option Match) → CleanIf IsError (handle_post_match env body)
  unfolding handle_post_match
  handle_post_match-CleanIf body =
      Reads-CleanIf IsError (read_json body) _ (read_json-Reads body) λ sent.
        Reads-CleanIf IsError (attribute_match env (received sent)) _
          (attribute_match-Reads (received sent))
          λ tid.
            let m = attributed tid (received sent) in
            writes-CleanIf IsError (with_store (record_match env m) internal) _
              (with_store-CleanIf (record_match env m) internal (record_match-FailsClean env m))
              λ a.
                announces-Succeeds env "match" (Payload.matched (summary a)) 201 (Body.match a)
                  (λ h. omega arith)

  -- the end that both handlers of clients share
  save_client-CleanIf :
      (client : Time → ClientInfo) (n : ℕ) (answer : ClientInfo → Body)
      → (400 ≤ n → ⊥)
      → CleanIf IsError (do
        seen ← with_store (now env) internal
        c ← with_store (upsert_client env (client seen)) internal
        broadcast env "client_update" (Payload.client c)
        pure (reply n (answer c)))
  save_client-CleanIf client n answer fine =
      Reads-CleanIf IsError (with_store (now env) internal) _
        (λ r. with_store-Keeps env (At r) (now env) internal (now-Keeps env (At r) (λ s k h. h)))
        λ seen.
          writes-CleanIf IsError (with_store (upsert_client env (client seen)) internal) _
            (with_store-CleanIf (upsert_client env (client seen)) internal
              (upsert_client-FailsClean env (client seen)))
            λ c. announces-Succeeds env "client_update" (Payload.client c) n (answer c) fine

  pub handle_register-CleanIf :
      (body : Option RegisterRequest) → CleanIf IsError (handle_register env body)
  unfolding handle_register
  handle_register-CleanIf body =
      Reads-CleanIf IsError (read_json body) _ (read_json-Reads body) λ req.
        Reads-CleanIf IsError
          (with_store (id_or_new env req.client_id)
            (λ e. write_error 500 "failed to generate client ID"))
          _
          (λ r.
            with_store-Keeps env (At r) (id_or_new env req.client_id)
              (λ e. write_error 500 "failed to generate client ID")
              (id_or_new-Keeps env (At r) (λ s n h. h) req.client_id))
          λ id. save_client-CleanIf _ 201 _ (λ h. omega arith)

  pub handle_heartbeat-CleanIf :
      (body : Option Heartbeat) → CleanIf IsError (handle_heartbeat env body)
  unfolding handle_heartbeat
  handle_heartbeat-CleanIf body =
      Reads-CleanIf IsError (read_json body) _ (read_json-Reads body) λ hb.
        Reads-CleanIf IsError (require (required "client_id is required" hb.client_id)) _
          (require-Reads _) λ u. save_client-CleanIf _ 204 _ (λ h. omega arith)

  pub handle_delete_target_lem :
      (id : String) (s : Server)
      → IsConsistent s.store
      → (id == "") ≡ false
      → Fails IsError (handle_delete_target env id s).0
      → rows (handle_delete_target env id s).1.store ≡ rows s.store
  unfolding handle_delete_target
  handle_delete_target_lem id s h given = elim (delete_target_cases env id s.store) [
    | inr (e, n, _, failed) ↦ rw failed (λ fails. refl)
    | inl done ↦ elim (Bool-cases (ltb 0 (count (λ r. r.id == id) s.store.targets))) [
      | inl there ↦
          let announced =
            announces-Succeeds env "target_update" (Payload.deleted id) 204 Body.no_content
              (λ (h : 400 ≤ 204). omega arith) in
          rw (done, there) (λ fails. absurd (announced _ fails))
      | inr missing ↦ rw (done, missing) (λ fails. delete_target-none id s.store h given missing)
    ]
  ]
