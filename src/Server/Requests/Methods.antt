-- ===== src/Server/Requests/Methods.antt =====
-- pkg/store/store.go: the methods that the handlers call keep the stored targets valid.
use vanitykeygen.Common.{
  String, not, List, [], ◌∷◌, ◌==◌, ◌≡◌, refl, arith, All, Bool, Bool-cases, inl, inr, filter,
}
use vanitykeygen.Vkg.{Time, Match, ClientInfo}
use vanitykeygen.Runtime.{Env, Action, pure, ◌>>=◌, ◌>>◌}
use vanitykeygen.Table.{delete_where, insert}
use vanitykeygen.Store.{Store, TargetRow, call, now, id_or_new, time_or_now}
use vanitykeygen.Store.Calls.{at_call, begin_cases, Begun, now-eq, id_or_new-eq}
use vanitykeygen.Store.Targets.{scan_target, delete_target}
use vanitykeygen.Store.Targets.Cascade.{delete_target_cases}
use vanitykeygen.Store.Matches.{record_match, insert_match, match_row}
use vanitykeygen.Store.Clients.{upsert_client, mark_offline_clients, delete_offline_clients, cutoff}
use vanitykeygen.Server.Valid.{IsValid}
use vanitykeygen.Server.Background.{reap, offline_after, deleted_after}
use vanitykeygen.Store.{Store}
use vanitykeygen.Server.{internal}
use vanitykeygen.Server.MatchRoutes.{attribute_match, attributed, received}
use vanitykeygen.Runtime.Laws.{Keeps, bind-Keeps}
use vanitykeygen.Server.Keeps.{Serves, with_store-Keeps}
use vanitykeygen.Server.Stored.{AllValid, call-Keeps, create_target-Keeps, update_target-Keeps}
use vanitykeygen.Server.Requests.Kept.{MethodsKeep, post}
use vanitykeygen.Server.Requests.Reading.{attribute_match-store}

module _ (env : Env) where
  -- A method that begins with a call and only reads.
  reads-Keeps :
      {A : Type 0} (read : Action Store String A)
      → ((s : Store) → (read s).1 ≡ s)
      → Keeps (AllValid env) (call env >> read)
  reads-Keeps read same =
      bind-Keeps (AllValid env) (call env) _ (call-Keeps env) λ u s h. rw (same s) h

  -- A method of CreateTarget's kind that writes another table.
  writes-Keeps :
      {A : Type 0} (id : String) (t : Time) (write : String → Time → Action Store String A)
      → ((id' : String) (t' : Time) (s : Store) → (write id' t' s).1.targets ≡ s.targets)
      → Keeps
          (AllValid env)
          (do id' ← id_or_new env id; t' ← time_or_now env t; call env; write id' t')
  writes-Keeps id t write same s h = elim (begin_cases env id t write s) [
    | Begun.failed e n out ↦ rw out h
    | Begun.wrote id' t' n _ _ out ↦ rw (out, same id' t' (at_call s n)) h
  ]

  write_match-targets :
      (m : Match) (s : Store)
      → ((insert_match (match_row m) >> pure {E = String} m) s).1.targets ≡ s.targets
  unfolding insert_match match_row insert
  write_match-targets m s = ground arith

  record_match-Keeps : (m : Match) → Keeps (AllValid env) (record_match env m)
  unfolding record_match
  record_match-Keeps m =
      writes-Keeps m.id m.timestamp _
        λ id t s. write_match-targets (record m { id = id; timestamp = t }) s

  upsert_client-Keeps : (c : ClientInfo) → Keeps (AllValid env) (upsert_client env c)
  unfolding upsert_client
  upsert_client-Keeps c = writes-Keeps c.id c.last_seen _ λ id t s. refl

  filter-All :
      (p : TargetRow → Bool) (rows : List TargetRow)
      → All (λ r. IsValid env (scan_target r)) rows
      → All (λ r. IsValid env (scan_target r)) (filter p rows)
  filter-All p [] h = tt
  filter-All p (r ∷ rows) (hr, h) = elim (Bool-cases (p r)) [
    | inl kept ↦ rw (filter, kept) (hr, filter-All p rows h)
    | inr gone ↦ rw (filter, gone) (filter-All p rows h)
  ]

  delete_target-Keeps : (id : String) → Keeps (AllValid env) (delete_target env id)
  delete_target-Keeps id s h = elim (delete_target_cases env id s) [
    | inl done ↦ rw done (unfold delete_where in filter-All (λ r. not (r.id == id)) s.targets h)
    | inr (e, n, _, failed) ↦ rw failed h
  ]

  now-Keeps : Keeps (AllValid env) (now env)
  now-Keeps s h = rw (now-eq env s) h

  id_or_new-Keeps : (id : String) → Keeps (AllValid env) (id_or_new env id)
  id_or_new-Keeps id s h = rw (id_or_new-eq env id s) h

  cutoff-Keeps : (t : Time) → Keeps (AllValid env) (cutoff env t)
  unfolding cutoff
  cutoff-Keeps t = bind-Keeps (AllValid env) (now env) _ now-Keeps λ u s h. h

  mark_offline_clients-Keeps : (t : Time) → Keeps (AllValid env) (mark_offline_clients env t)
  unfolding mark_offline_clients
  mark_offline_clients-Keeps t =
      bind-Keeps (AllValid env) (cutoff env t) _ (cutoff-Keeps t)
        λ before. bind-Keeps (AllValid env) (call env) _ (call-Keeps env) λ u s h. h

  delete_offline_clients-Keeps : (t : Time) → Keeps (AllValid env) (delete_offline_clients env t)
  unfolding delete_offline_clients
  delete_offline_clients-Keeps t =
      bind-Keeps (AllValid env) (cutoff env t) _ (cutoff-Keeps t)
        λ before. bind-Keeps (AllValid env) (call env) _ (call-Keeps env) λ u s h. h

  reap-Keeps : (s : Store) → AllValid env s → AllValid env (reap env s)
  unfolding reap
  reap-Keeps s h =
      delete_offline_clients-Keeps deleted_after (mark_offline_clients env offline_after s).1
        (mark_offline_clients-Keeps offline_after s h)

  attribute_match-Keeps : (m : Match) → Keeps (Serves env (AllValid env)) (attribute_match env m)
  attribute_match-Keeps m s h = rw (attribute_match-store env m s) h

  post-Keeps : (m : Match) → Keeps (Serves env (AllValid env)) (post env m)
  post-Keeps m =
      bind-Keeps (Serves env (AllValid env)) (attribute_match env m) _ (attribute_match-Keeps m)
        λ tid.
          with_store-Keeps env (AllValid env) (record_match env (attributed tid m)) internal
            (record_match-Keeps (attributed tid m))

  pub AllValid-MethodsKeep : MethodsKeep env (AllValid env)
  AllValid-MethodsKeep = record {
    calls = λ s n h. h;
    creates = create_target-Keeps env;
    updates = update_target-Keeps env;
    deletes = delete_target-Keeps;
    posts = λ m. post-Keeps (received m);
    upserts = upsert_client-Keeps;
    reaps = reap-Keeps;
  }
