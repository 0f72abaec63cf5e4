-- ===== src/Server/Requests/Reading.antt =====
-- The methods of pkg/store that only read, and attributeMatch, keep a property of the tables: they change
-- no more than the number of the next call.
use vanitykeygen.Common.{String, List, ◌≡◌, refl}
use vanitykeygen.Vkg.{Target, Match}
use vanitykeygen.Runtime.{Env, Outcome, ok, err, Action, ◌>>◌}
use vanitykeygen.Store.{Store, now, id_or_new}
use vanitykeygen.Store.Targets.{list_targets, list_active_targets}
use vanitykeygen.Store.Matches.{list_matches, get_match, match_count}
use vanitykeygen.Store.Clients.{list_clients}
use vanitykeygen.Server.{Server, internal}
use vanitykeygen.Server.Compile.{Config}
use vanitykeygen.Store.Targets.{get_target}
use vanitykeygen.Server.TargetRoutes.{
  handle_list_targets, handle_get_target, handle_get_active_targets,
}
use vanitykeygen.Server.MatchRoutes.{
  handle_list_matches, handle_get_match, attribute_match, attributing,
}
use vanitykeygen.Server.ClientRoutes.{handle_list_clients, handle_stats, handle_version}
use vanitykeygen.Server.Requests.{Request, route}
use vanitykeygen.Common.{inl, inr, ◌⊎◌, ◌∙◌, map, filter, Option-cases, ℕ, suc, ap, ℤ}
use vanitykeygen.Store.{call, TargetRow}
use vanitykeygen.Store.Calls.{at_call, call-eq, now-eq, id_or_new-eq}
use vanitykeygen.Store.Targets.{scan_target}
use vanitykeygen.Runtime.Laws.{Keeps, bind-Keeps}
use vanitykeygen.Server.Keeps.{Serves, asks-Keeps, finds-Keeps}

-- what ListActiveTargets lists
abbrev pub active : Env → Store → List Target
active env s =
    map scan_target
      (env.order_by_desc TargetRow (λ r. r.created_at) (filter (λ r. r.active) s.targets))

pub list_active_targets_cases :
    (env : Env) (s : Store)
    → (list_active_targets env s ≡ (ok (active env s), at_call s (suc s.calls)))
      ⊎ ((e : String) × (list_active_targets env s ≡ (err e, at_call s (suc s.calls))))
unfolding list_active_targets call
list_active_targets_cases env s = elim (Option-cases (env.fault s.calls)) [
  | inl fine ↦ inl (rw (list_active_targets, call, fine))
  | inr (e, fails) ↦ inr (e, rw (list_active_targets, call, fails))
]

attributing-store :
    (env : Env) (m : Match) (o : Outcome String (List Target)) (store : Store) (s : Server)
    → (attributing env m (o, store) s).1.store ≡ store
attributing-store env m (ok ts) store s = refl
attributing-store env m (err e) store s = refl

-- The attribution only reads the database.
pub attribute_match-store :
    (env : Env) (m : Match) (s : Server)
    → (attribute_match env m s).1.store ≡ at_call s.store (suc s.store.calls)
unfolding attribute_match
attribute_match-store env m s =
    attributing-store env m (list_active_targets env s.store).0 (list_active_targets env s.store).1
      s
    ∙ (elim (list_active_targets_cases env s.store) [
      | inl listed ↦ ap (λ r. r.1) listed
      | inr (e, failed) ↦ ap (λ r. r.1) failed
    ])

-- a request that asks for something and sends nothing
abbrev pub IsReading : Request → Type 0
IsReading (Request.create_target body) = ⊥
IsReading (Request.update_target id body) = ⊥
IsReading (Request.delete_target id) = ⊥
IsReading (Request.post_match body) = ⊥
IsReading (Request.register body) = ⊥
IsReading (Request.heartbeat body) = ⊥
IsReading (Request.list_targets limit) = Unit {0}
IsReading (Request.get_target id) = Unit {0}
IsReading Request.active_targets = Unit {0}
IsReading Request.stats = Unit {0}
IsReading Request.version = Unit {0}
IsReading (Request.list_matches id limit) = Unit {0}
IsReading (Request.get_match id) = Unit {0}
IsReading (Request.list_clients limit) = Unit {0}

module _ (env : Env) (P : Store → Type 0)
    (calls : (s : Store) (n : ℕ) → P s → P (at_call s n)) where
  pub call-Keeps : Keeps P (call env)
  call-Keeps s h = rw (call-eq env s) (calls s (suc s.calls) h)

  -- A method that begins with a call and only reads.
  pub reads-Keeps :
      {A : Type 0} (read : Action Store String A)
      → ((s : Store) → (read s).1 ≡ s)
      → Keeps P (call env >> read)
  reads-Keeps read same = bind-Keeps P (call env) _ call-Keeps λ u s h. rw (same s) h

  pub now-Keeps : Keeps P (now env)
  now-Keeps s h = rw (now-eq env s) (calls s (suc s.calls) h)

  pub id_or_new-Keeps : (id : String) → Keeps P (id_or_new env id)
  id_or_new-Keeps id s h = rw (id_or_new-eq env id s) (calls s (id_or_new env id s).1.calls h)

  pub get_target-Keeps : (id : String) → Keeps P (get_target env id)
  unfolding get_target
  get_target-Keeps id = reads-Keeps _ λ s. refl

  pub list_targets-Keeps : Keeps P (list_targets env)
  unfolding list_targets
  list_targets-Keeps = reads-Keeps _ λ s. refl

  pub list_active_targets-Keeps : Keeps P (list_active_targets env)
  unfolding list_active_targets
  list_active_targets-Keeps = reads-Keeps _ λ s. refl

  pub list_matches-Keeps : (id : String) (limit : ℤ) → Keeps P (list_matches env id limit)
  unfolding list_matches
  list_matches-Keeps id limit = reads-Keeps _ λ s. refl

  pub get_match-Keeps : (id : String) → Keeps P (get_match env id)
  unfolding get_match
  get_match-Keeps id = reads-Keeps _ λ s. refl

  pub match_count-Keeps : (id : String) → Keeps P (match_count env id)
  unfolding match_count
  match_count-Keeps id = reads-Keeps _ λ s. refl

  pub list_clients-Keeps : Keeps P (list_clients env)
  unfolding list_clients
  list_clients-Keeps = reads-Keeps _ λ s. refl

  -- The requests that ask only.
  pub route_reading-Keeps :
      (config : Config) (r : Request) → IsReading r → Keeps (Serves env P) (route env config r)
  unfolding route handle_list_targets handle_get_target handle_get_active_targets
      handle_list_matches handle_get_match handle_list_clients handle_stats handle_version
  route_reading-Keeps config (Request.list_targets limit) reads =
      asks-Keeps env P (list_targets env) internal _ (list_targets-Keeps) λ ts s h. h
  route_reading-Keeps config (Request.get_target id) reads =
      finds-Keeps env P (get_target env id) "target not found" _ (get_target-Keeps id)
  route_reading-Keeps config Request.active_targets reads =
      asks-Keeps env P (list_active_targets env) internal _ (list_active_targets-Keeps) λ ts s h. h
  route_reading-Keeps config Request.version reads = λ s h. h
  route_reading-Keeps config Request.stats reads =
      asks-Keeps env P (list_clients env) internal _ (list_clients-Keeps)
        λ cs. asks-Keeps env P (match_count env "") internal _ (match_count-Keeps "") λ n s h. h
  route_reading-Keeps config (Request.list_matches id limit) reads =
      asks-Keeps env P (list_matches env id _) internal _ (list_matches-Keeps id _) λ ms s h. h
  route_reading-Keeps config (Request.get_match id) reads =
      finds-Keeps env P (get_match env id) "match not found" _ (get_match-Keeps id)
  route_reading-Keeps config (Request.list_clients limit) reads =
      asks-Keeps env P (list_clients env) internal _ (list_clients-Keeps) λ cs s h. h
  route_reading-Keeps config (Request.create_target body) reads = absurd reads
  route_reading-Keeps config (Request.update_target id body) reads = absurd reads
  route_reading-Keeps config (Request.delete_target id) reads = absurd reads
  route_reading-Keeps config (Request.post_match body) reads = absurd reads
  route_reading-Keeps config (Request.register body) reads = absurd reads
  route_reading-Keeps config (Request.heartbeat body) reads = absurd reads
