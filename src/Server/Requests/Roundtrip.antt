-- ===== src/Server/Requests/Roundtrip.antt =====
-- A match that POST /api/matches answers with is what GET /api/matches/{id} finds.
use vanitykeygen.Common.{
  String, none, some, eq_refl, ◌≡◌, ◌⊎◌, refl, sym, ap, ◌∙◌, Option-cases, inl, inr,
}
use vanitykeygen.Vkg.{Match, summary}
use vanitykeygen.Hub
use vanitykeygen.Runtime.{Env, Payload, Outcome, ok, err}
use vanitykeygen.Store.{Store}
use vanitykeygen.Store.Targets.{list_active_targets}
use vanitykeygen.Store.Matches.{record_match}
use vanitykeygen.Store.Matches.Roundtrip.{
  found, whole_seconds, get_match_lem, record_match-IsRecorded,
}
use vanitykeygen.Server.{Server, reply, aborted, internal, Body, serve, broadcast}
use vanitykeygen.Server.Compile.{Config}
use vanitykeygen.Server.MatchRoutes.{
  handle_post_match, handle_get_match, attribute_match, attributing, attributed, received,
}
use vanitykeygen.Server.Requests.{Request, route}

outcome_cases :
    (r : Outcome String Match × Store)
    → ((m : Match) × (s : Store) × (r ≡ (ok m, s)))
      ⊎ ((e : String) × (s : Store) × (r ≡ (err e, s)))
outcome_cases (ok m, s) = inl (m, s, refl)
outcome_cases (err e, s) = inr (e, s, refl)

module _ (env : Env) where
  -- What POST answers with was recorded.
  posted :
      (sent m : Match) (s s' : Server)
      → serve (handle_post_match env (some sent)) s ≡ (reply 201 (Body.match m), s')
      → (tid : String) × (before : Store) × (record_match env
            (attributed tid (received sent))
            before
          ≡ (ok m, s'.store))
  unfolding handle_post_match attribute_match broadcast
  posted sent m s s' h =
      let (tid, t) = attributing env (received sent) (list_active_targets env s.store) s in
      let m0 = attributed tid (received sent) in
      elim (outcome_cases (record_match env m0 t.store)) [
        | inr (e, after, failed) ↦
            let ends : serve (handle_post_match env (some sent)) s
                ≡ (internal e, record t { store = after }) =
              rw failed refl in
            cc
        | inl (m1, after, wrote) ↦
            elim (Option-cases (Hub.broadcast env "match" (Payload.matched (summary m1)) t.hub)) [
              | inl panics ↦
                  let ends : serve (handle_post_match env (some sent)) s
                      ≡ (aborted, record t { store = after }) =
                    rw (wrote, panics) refl in
                  cc
              | inr (hub, fine) ↦
                  let ends : serve (handle_post_match env (some sent)) s
                      ≡ (reply 201 (Body.match m1), record t { store = after; hub = hub }) =
                    rw (wrote, fine) refl in
                  let both = sym ends ∙ h in
                  let same_m : m1 ≡ m = cc in
                  let same_store : after ≡ s'.store = ap (λ x. x.1.store) both in
                  (tid, t.store, rw (← same_m, ← same_store) wrote)
            ]
      ]

  -- If POST /api/matches answers 201 with a match, and the database answers then, GET
  -- /api/matches/{id} of its ID answers 200 with that match, its time cut to whole seconds.
  pub post-get :
      (config : Config) (sent m : Match) (s s' : Server)
      → serve (route env config (Request.post_match (some sent))) s ≡ (reply 201 (Body.match m), s')
      → env.fault s'.store.calls ≡ none
      → (serve (route env config (Request.get_match m.id)) s').0
        ≡ reply 200 (Body.match (whole_seconds m))
  unfolding route handle_get_match
  post-get config sent m s s' h fine =
      let (tid, before, recorded) = posted sent m s s' h in
      let (_, _, is) =
        record_match-IsRecorded env (attributed tid (received sent)) m before s'.store recorded in
      let there : found m.id s'.store ≡ some (whole_seconds m) =
        is.match m.id ∙ rw (eq_refl m.id) refl in
      rw ((get_match_lem env m.id s'.store fine).0, there) refl
