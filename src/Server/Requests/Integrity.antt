-- ===== src/Server/Requests/Integrity.antt =====
-- No sequence of requests breaks the keys of a table or leaves a match of a target that is not stored.
use vanitykeygen.Common.{
  suc, String, Bool, true, false, ◌||◌, List, [], ◌∷◌, ◌==◌, eq_refl, ◌≡◌, refl, sym, subst, arith,
  any, map, filter, Bool-cases, inl, inr,
}
use vanitykeygen.Vkg.{Target, Match}
use vanitykeygen.Runtime.{Env}
use vanitykeygen.Runtime.Order.{Sorts, any-Perm}
use vanitykeygen.Table.{has_key}
use vanitykeygen.Store.{TargetRow, Store}
use vanitykeygen.Store.Calls.{at_call}
use vanitykeygen.Store.Integrity.{IsConsistent, has_target}
use vanitykeygen.Store.Targets.{scan_target}
use vanitykeygen.Store.Clients.{mark_offline_clients}
use vanitykeygen.Server.{Server}
use vanitykeygen.Server.Compile.{Config}
use vanitykeygen.Server.Attribution.{Cache, attribute, target_hits}
use vanitykeygen.Server.MatchRoutes.{attribute_match, attributed, received}
use vanitykeygen.Server.Background.{reap, offline_after, deleted_after}
use vanitykeygen.Runtime.Laws.{Keeps}
use vanitykeygen.Server.Keeps.{Serves}
use vanitykeygen.Server.Requests.{Happening, happen_all}
use vanitykeygen.Server.Requests.Reading.{active, list_active_targets_cases}
use vanitykeygen.Server.Requests.Kept.{MethodsKeep, post, happen_all-Keeps}
use vanitykeygen.Store.Integrity.Methods.{
  at_call-IsConsistent, create_target-Keeps, update_target-Keeps, delete_target-Keeps,
  upsert_client-Keeps, mark_offline_clients-Keeps, delete_offline_clients-Keeps, record_match-Keeps,
}

module _ (env : Env) where
  reap-Keeps : (s : Store) → IsConsistent s → IsConsistent (reap env s)
  unfolding reap
  reap-Keeps s h =
      delete_offline_clients-Keeps env deleted_after (mark_offline_clients env offline_after s).1
        (mark_offline_clients-Keeps env offline_after s h)

  -- no target, or one of the list
  abbrev Names : List Target → String → Type 0
  Names ts id = (id == "" || any (λ (t : Target). t.id == id) ts) ≡ true

  attribute-hit :
      (m : Match) (t : Target) (ts : List Target) (cache : Cache)
      → (target_hits env m t cache).0 ≡ true
      → (attribute env m (t ∷ ts) cache).0 ≡ t.id
  unfolding attribute
  attribute-hit m t ts cache hit = rw hit refl

  attribute-miss :
      (m : Match) (t : Target) (ts : List Target) (cache : Cache)
      → (target_hits env m t cache).0 ≡ false
      → (attribute env m (t ∷ ts) cache).0 ≡ (attribute env m ts (target_hits env m t cache).1).0
  unfolding attribute
  attribute-miss m t ts cache miss = rw miss refl

  attribute-Names :
      (m : Match) (ts : List Target) (cache : Cache) → Names ts (attribute env m ts cache).0
  attribute-Names m [] cache = unfold attribute in ground (arith, eq_refl "")
  attribute-Names m (t ∷ ts) cache = elim (Bool-cases (target_hits env m t cache).0) [
    | inl hit ↦
        subst (Names (t ∷ ts)) (sym (attribute-hit m t ts cache hit)) (ground (arith, eq_refl t.id))
    | inr miss ↦
        subst (Names (t ∷ ts)) (sym (attribute-miss m t ts cache miss))
          (ground (arith, attribute-Names m ts (target_hits env m t cache).1))
  ]

  any-scan :
      (id : String) (rows : List TargetRow)
      → any (λ (t : Target). t.id == id) (map scan_target rows) ≡ has_target id rows
  unfolding has_key scan_target
  any-scan id [] = refl
  any-scan id (r ∷ rows) = ground (arith, any-scan id rows)

  any-filter :
      (id : String) (p : TargetRow → Bool) (rows : List TargetRow)
      → has_target id (filter p rows) ≡ true
      → has_target id rows ≡ true
  unfolding has_key
  any-filter id p [] h = h
  any-filter id p (r ∷ rows) h = ground (arith, any-filter id p rows)

  has_target-order :
      (sorts : Sorts env) (id : String) (rows : List TargetRow)
      → has_target id (env.order_by_desc TargetRow (λ r. r.created_at) rows) ≡ has_target id rows
  unfolding has_key
  has_target-order sorts id rows =
      any-Perm (λ r. r.id == id) (sorts.perm TargetRow (λ r. r.created_at) rows)

  active-has_target :
      (sorts : Sorts env) (id : String) (s : Store)
      → Names (active env s) id
      → (id == "" || has_target id s.targets) ≡ true
  active-has_target sorts id s h =
      let sorted =
        env.order_by_desc TargetRow (λ r. r.created_at) (filter (λ r. r.active) s.targets) in
      ground (
        arith,
        h,
        any-scan id sorted,
        has_target-order sorts id (filter (λ r. r.active) s.targets),
        any-filter id (λ r. r.active) s.targets,
      )

  attributed-RefersTo :
      (sorts : Sorts env) (m : Match) (s : Store) (id : String)
      → Names (active env s) id
      → ((attributed id (received m)).target_id == ""
          || has_target (attributed id (received m)).target_id s.targets)
        ≡ true
  attributed-RefersTo sorts m s id named =
      let there = active-has_target sorts id s named in
      elim (Bool-cases (id == "")) [
        | inl nothing ↦ rw nothing (ground (arith, eq_refl ""))
        | inr found ↦ rw found there
      ]

  post-Keeps : Sorts env → (m : Match) → Keeps (Serves env IsConsistent) (post env (received m))
  unfolding attribute_match
  post-Keeps sorts m s h = elim (list_active_targets_cases env s.store) [
    | inr (e, failed) ↦ rw failed (
        record_match-Keeps env (received m) (at_call s.store (suc s.store.calls))
          (ground (arith, eq_refl "")) (at_call-IsConsistent s.store (suc s.store.calls) h))
    | inl listed ↦ rw listed (
        record_match-Keeps env
          (attributed (attribute env (received m) (active env s.store) s.re_cache).0 (received m))
          (at_call s.store (suc s.store.calls))
          (attributed-RefersTo sorts m s.store
            (attribute env (received m) (active env s.store) s.re_cache).0
            (attribute-Names (received m) (active env s.store) s.re_cache))
          (at_call-IsConsistent s.store (suc s.store.calls) h))
  ]

  IsConsistent-MethodsKeep : Sorts env → MethodsKeep env IsConsistent
  IsConsistent-MethodsKeep sorts = record {
    calls = at_call-IsConsistent;
    creates = λ t v. create_target-Keeps env t;
    updates = λ t v. update_target-Keeps env t;
    deletes = delete_target-Keeps env;
    posts = post-Keeps sorts;
    upserts = upsert_client-Keeps env;
    reaps = reap-Keeps;
  }

  -- From a database in which the IDs in each table are unique and every match names no target or a
  -- stored one, every sequence of requests, reaper ticks and turns of event streams, each run to
  -- its end, whatever fails in them, leaves such a database, if ORDER BY only rearranges the rows.
  pub happen_all-IsConsistent :
      (config : Config) (hs : List Happening) (s : Server)
      → Sorts env
      → IsConsistent s.store
      → IsConsistent (happen_all env config hs s).store
  happen_all-IsConsistent config hs s sorts =
      happen_all-Keeps env IsConsistent (IsConsistent-MethodsKeep sorts) config hs s
