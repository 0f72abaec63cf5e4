-- ===== src/Store/Integrity/Methods.antt =====
-- pkg/store/store.go: every method keeps the keys of the tables and the references of the matches.
use vanitykeygen.Common.{ℕ, suc, String, true, ◌||◌, ◌==◌, ◌≡◌, refl, Option-cases, inl, inr}
use vanitykeygen.Vkg.{Target, Match, ClientInfo, Time}
use vanitykeygen.Runtime.{Env, Action, pure, modify, ◌>>◌}
use vanitykeygen.Table.{insert, update, upsert}
use vanitykeygen.Table.Keys.{
  insert-IsKeyed, update-IsKeyed, upsert-IsKeyed, delete_where-IsKeyed, update_where-IsKeyed,
}
use vanitykeygen.Store.{TargetRow, MatchRow, ClientRow, Store, call, now}
use vanitykeygen.Store.Calls.{at_call, begin_cases, Begun, call-eq, now-eq}
use vanitykeygen.Store.Integrity.{
  IsConsistent, RefersTo, insert-RefersTo, has_target, All-RefersTo, insert-has_target,
  update-has_target, delete-RefersTo,
}
use vanitykeygen.Store.Targets.{
  target_row, with_defaults, insert_target, set_target, create_target, update_target, delete_target,
}
use vanitykeygen.Runtime.Laws.{Keeps, bind-Keeps, state-pure}
use vanitykeygen.Store.Targets.Roundtrip.{write_target}
use vanitykeygen.Store.Targets.Cascade.{delete_target_cases}
use vanitykeygen.Store.Matches.{record_match, match_row, insert_match}
use vanitykeygen.Store.Clients.{
  client_row, upsert_client, cutoff, mark_offline_clients, delete_offline_clients, is_stale,
  is_gone, set_offline,
}

pub at_call-IsConsistent : (s : Store) (n : ℕ) → IsConsistent s → IsConsistent (at_call s n)
at_call-IsConsistent s n h = record {
  targets = h.targets;
  matches = h.matches;
  clients = h.clients;
  references = h.references;
}

module _ (env : Env) where
  insert_target-Keeps : (r : TargetRow) → Keeps IsConsistent (insert_target r)
  unfolding insert_target
  insert_target-Keeps r s h = elim (Option-cases (insert (λ (x : TargetRow). x.id) r s.targets)) [
    | inl taken ↦ rw (insert_target, taken) h
    | inr (rows, added) ↦
        rw (insert_target, added)
          (record {
            targets = insert-IsKeyed (λ (x : TargetRow). x.id) r s.targets rows added h.targets;
            matches = h.matches;
            clients = h.clients;
            references =
                All-RefersTo s.targets rows s.matches
                  (λ id. insert-has_target r s.targets rows id added) h.references;
          })
  ]

  pub create_target-Keeps : (t : Target) → Keeps IsConsistent (create_target env t)
  unfolding create_target
  create_target-Keeps t s h = elim (begin_cases env t.id t.created_at (write_target t) s) [
    | Begun.failed e n out ↦ rw out (at_call-IsConsistent s n h)
    | Begun.wrote id c n _ _ out ↦
        let row = target_row (with_defaults t id c) in
        rw out (
          bind-Keeps IsConsistent (insert_target row) (λ u. pure (with_defaults t id c))
            (insert_target-Keeps row) (λ u s h. h) (at_call s n) (at_call-IsConsistent s n h))
  ]

  set_rows-IsConsistent :
      (t : Target) (s : Store)
      → IsConsistent s
      → IsConsistent (record s { targets = update (λ r. r.id) t.id (set_target t) s.targets })
  unfolding set_target
  set_rows-IsConsistent t s h = record {
    targets =
        update-IsKeyed (λ (x : TargetRow). x.id) t.id (set_target t) s.targets (λ r e. refl)
          h.targets;
    matches = h.matches;
    clients = h.clients;
    references =
        All-RefersTo s.targets (update (λ r. r.id) t.id (set_target t) s.targets) s.matches
          (update-has_target t s.targets) h.references;
  }

  call-Keeps : Keeps IsConsistent (call env)
  call-Keeps s h = rw (call-eq env s) (at_call-IsConsistent s (suc s.calls) h)

  pub update_target-Keeps : (t : Target) → Keeps IsConsistent (update_target env t)
  unfolding update_target
  update_target-Keeps t =
      bind-Keeps IsConsistent (call env) _ call-Keeps (λ u s h. set_rows-IsConsistent t s h)

  pub delete_target-Keeps : (id : String) → Keeps IsConsistent (delete_target env id)
  delete_target-Keeps id s h = elim (delete_target_cases env id s) [
    | inl done ↦ rw done (record {
      targets =
          delete_where-IsKeyed (λ (x : TargetRow). x.id) (λ r. r.id == id) s.targets h.targets;
      matches =
          delete_where-IsKeyed (λ (x : MatchRow). x.id) (λ m. m.target_id == id) s.matches
            h.matches;
      clients = h.clients;
      references = delete-RefersTo id s.targets s.matches h.references;
    })
    | inr (e, n, _, failed) ↦ rw failed (at_call-IsConsistent s (suc n) h)
  ]

  -- what UpsertClient does once it has an ID and a time
  abbrev pub write_client : ClientInfo → String → Time → Action Store String ClientInfo
  write_client c id t = do
    modify (λ s. record s {
      clients = upsert (λ r. r.id) (client_row (record c { id = id; last_seen = t })) s.clients;
    })
    pure (record c { id = id; last_seen = t })

  pub upsert_client-Keeps : (c : ClientInfo) → Keeps IsConsistent (upsert_client env c)
  unfolding upsert_client
  upsert_client-Keeps c s h = elim (begin_cases env c.id c.last_seen (write_client c) s) [
    | Begun.failed e n out ↦ rw out (at_call-IsConsistent s n h)
    | Begun.wrote id t n _ _ out ↦ rw out (record {
      targets = h.targets;
      matches = h.matches;
      clients =
          upsert-IsKeyed (λ (x : ClientRow). x.id)
            (client_row (record c { id = id; last_seen = t })) s.clients h.clients;
      references = h.references;
    })
  ]

  cutoff-Keeps : (t : Time) → Keeps IsConsistent (cutoff env t)
  unfolding cutoff
  cutoff-Keeps t =
      bind-Keeps IsConsistent (now env) _
        (λ s h. rw (now-eq env s) (at_call-IsConsistent s (suc s.calls) h)) λ u s h. h

  pub mark_offline_clients-Keeps : (t : Time) → Keeps IsConsistent (mark_offline_clients env t)
  unfolding mark_offline_clients
  mark_offline_clients-Keeps t = bind-Keeps IsConsistent (cutoff env t) _ (cutoff-Keeps t) λ before.
      bind-Keeps IsConsistent (call env) _ call-Keeps λ u s h. record {
        targets = h.targets;
        matches = h.matches;
        clients =
            update_where-IsKeyed (λ (x : ClientRow). x.id) (is_stale before) set_offline s.clients
              (λ r. refl) h.clients;
        references = h.references;
      }

  pub delete_offline_clients-Keeps : (t : Time) → Keeps IsConsistent (delete_offline_clients env t)
  unfolding delete_offline_clients
  delete_offline_clients-Keeps t =
      bind-Keeps IsConsistent (cutoff env t) _ (cutoff-Keeps t) λ before.
        bind-Keeps IsConsistent (call env) _ call-Keeps λ u s h. record {
          targets = h.targets;
          matches = h.matches;
          clients =
              delete_where-IsKeyed (λ (x : ClientRow). x.id) (is_gone before) s.clients h.clients;
          references = h.references;
        }

  insert_match-IsConsistent :
      (r : MatchRow) (s : Store)
      → RefersTo s.targets r
      → IsConsistent s
      → IsConsistent (insert_match r s).1
  unfolding insert_match
  insert_match-IsConsistent r s refers h =
      elim (Option-cases (insert (λ (x : MatchRow). x.id) r s.matches)) [
        | inl taken ↦ rw (insert_match, taken) h
        | inr (rows, added) ↦
            rw (insert_match, added)
              (record {
                targets = h.targets;
                matches = insert-IsKeyed (λ (x : MatchRow). x.id) r s.matches rows added h.matches;
                clients = h.clients;
                references = insert-RefersTo s.targets r s.matches rows added refers h.references;
              })
      ]

  -- what RecordMatch does once it has an ID and a time
  abbrev pub write_match : Match → String → Time → Action Store String Match
  write_match m id t = do
    insert_match (match_row (record m { id = id; timestamp = t }))
    pure (record m { id = id; timestamp = t })

  pub record_match-Keeps :
      (m : Match) (s : Store)
      → (m.target_id == "" || has_target m.target_id s.targets) ≡ true
      → IsConsistent s
      → IsConsistent (record_match env m s).1
  unfolding record_match match_row
  record_match-Keeps m s refers h = elim (begin_cases env m.id m.timestamp (write_match m) s) [
    | Begun.failed e n out ↦ rw out (at_call-IsConsistent s n h)
    | Begun.wrote id t n _ _ out ↦
        let row = match_row (record m { id = id; timestamp = t }) in
        rw (out, state-pure (insert_match row) (record m { id = id; timestamp = t }) (at_call s n))
          (insert_match-IsConsistent row (at_call s n) refers (at_call-IsConsistent s n h))
  ]
