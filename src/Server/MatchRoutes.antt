-- ===== src/Server/MatchRoutes.antt =====
-- pkg/server/routes_matches.go: the handlers of /api/matches.
use vanitykeygen.Common.{String, Option, List, ◌==◌, if◌then◌else◌, pos}
use vanitykeygen.Vkg.{Target, Match, zero_time, summary}
use vanitykeygen.Runtime.{Env, Payload, Outcome, ok, err, Action, pure, ◌>>=◌, ◌>>◌}
use vanitykeygen.Store.{Store}
use vanitykeygen.Store.Targets.{list_active_targets}
use vanitykeygen.Store.Matches.{record_match, list_matches, get_match}
use vanitykeygen.Server.{
  Server, Reply, reply, Body, Handler, internal, with_store, read_json, broadcast,
}
use vanitykeygen.Server.Attribution.{attribute}
use vanitykeygen.Server.Limit.{parse_limit}
use vanitykeygen.Server.TargetRoutes.{or_not_found}

-- The server owns ID, Timestamp and TargetID.
abbrev pub received : Match → Match
received sent = record sent { id = ""; timestamp = zero_time; target_id = "" }

-- `if tid != "" { m.TargetID = tid }`
abbrev pub attributed : String → Match → Match
attributed tid m = if tid == "" then m else record m { target_id = tid }

module _ (env : Env) where
  unfoldable pub handle_list_matches : String → String → Handler
  handle_list_matches target_id limit = do
    ms ← with_store (list_matches env target_id (pos (parse_limit limit 100))) internal
    pure (reply 200 (Body.matches ms))

  unfoldable pub handle_get_match : String → Handler
  handle_get_match id = do
    found ← with_store (get_match env id) internal
    m ← or_not_found "match not found" found
    pure (reply 200 (Body.match m))

  abbrev pub attributing : Match → Outcome String (List Target) × Store → Server → String × Server
  attributing m (err e, store) s = ("", record s { store = store })
  attributing m (ok ts, store) s =
      let (id, cache) = attribute env m ts s.re_cache in
      (id, record s { store = store; re_cache = cache })

  -- attributeMatch; if the active targets cannot be listed the match has no target
  unfoldable pub attribute_match : Match → Action Server Reply String
  attribute_match m s =
      let (id, s') = attributing m (list_active_targets env s.store) s in (ok id, s')

  -- what handlePostMatch does with a match once it is recorded
  abbrev pub announce : Match → Handler
  announce recorded = do
    broadcast env "match" (Payload.matched (summary recorded))
    pure (reply 201 (Body.match recorded))

  unfoldable pub handle_post_match : Option Match → Handler
  handle_post_match body = do
    sent ← read_json body
    tid ← attribute_match (received sent)
    recorded ← with_store (record_match env (attributed tid (received sent))) internal
    announce recorded
