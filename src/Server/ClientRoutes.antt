-- ===== src/Server/ClientRoutes.antt =====
-- pkg/server/routes_clients.go: the handlers of /api/clients and /api/stats.
use vanitykeygen.Common.{
  ℕ, suc, ◌+◌, ◌%◌, ◌^◌, String, Option, List, [], ◌∷◌, ◌==◌, if◌then◌else◌, take,
}
use vanitykeygen.Vkg.{ClientInfo, Heartbeat, RegisterRequest}
use vanitykeygen.Runtime.{Env, Payload, pure, ◌>>=◌, ◌>>◌}
use vanitykeygen.Store.{id_or_new, now}
use vanitykeygen.Store.Clients.{upsert_client, list_clients}
use vanitykeygen.Store.Matches.{match_count}
use vanitykeygen.Server.{
  reply, Body, Handler, write_error, internal, with_store, read_json, require, broadcast,
}
use vanitykeygen.Server.Compile.{Config}
use vanitykeygen.Server.Limit.{parse_limit}
use vanitykeygen.Server.TargetRoutes.{required}

-- the variables of the loop of handleStats
pub record Totals : Type 0 where
  pub rate : ℕ
  pub key_count : ℕ
  pub active : ℕ

module _ (env : Env) where
  unfoldable pub handle_register : Option RegisterRequest → Handler
  handle_register body = do
    req ← read_json body
    client_id ←
        with_store (id_or_new env req.client_id)
          (λ e. write_error 500 "failed to generate client ID")
    seen ← with_store (now env) internal
    c ←
        with_store
          (upsert_client env (record {
            id = client_id;
            hostname = req.hostname;
            version = req.version;
            seekers = req.seekers;
            key_rate = 0;
            key_count = 0;
            last_seen = seen;
            status = "active";
          }))
          internal
    broadcast env "client_update" (Payload.client c)
    pure (reply 201 (Body.registered (record { client_id = c.id })))

  unfoldable pub handle_heartbeat : Option Heartbeat → Handler
  handle_heartbeat body = do
    hb ← read_json body
    require (required "client_id is required" hb.client_id)
    seen ← with_store (now env) internal
    c ←
        with_store
          (upsert_client env (record {
            id = hb.client_id;
            hostname = hb.hostname;
            version = hb.version;
            seekers = hb.seekers;
            key_rate = hb.key_rate;
            key_count = hb.key_count;
            last_seen = seen;
            status = "active";
          }))
          internal
    broadcast env "client_update" (Payload.client c)
    pure (reply 204 Body.no_content)

  unfoldable pub handle_list_clients : String → Handler
  handle_list_clients limit = do
    cs ← with_store (list_clients env) internal
    pure (reply 200 (Body.clients (take (parse_limit limit 100) cs)))

  -- the loop of handleStats; an int64 sum wraps
  unfoldable pub add_totals : Totals → List ClientInfo → Totals
  add_totals t [] = t
  add_totals t (c ∷ cs) =
      add_totals
        (if c.status == "active"
          then record {
            rate = env.float_add t.rate c.key_rate;
            key_count = (t.key_count + c.key_count) % 2 ^ 64;
            active = suc t.active;
          }
          else t)
        cs

  unfoldable pub handle_stats : Handler
  unfolding add_totals
  handle_stats = do
    cs ← with_store (list_clients env) internal
    total ← with_store (match_count env "") internal
    let t = add_totals (record { rate = 0; key_count = 0; active = 0 }) cs
    pure (
        reply 200 (
          Body.stats (record {
            active_clients = t.active;
            total_key_rate = t.rate;
            total_key_count = t.key_count;
            total_matches = total;
          })))

-- handleVersion
unfoldable pub handle_version : Config → Handler
handle_version config = pure (reply 200 (Body.version config.version))
