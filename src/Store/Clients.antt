-- ===== src/Store/Clients.antt =====
-- pkg/store/store.go: the methods on the clients table.
pub mod Roundtrip
use vanitykeygen.Common.{ℕ, ◌-◌, ltb, Bool, not, ◌&&◌, String, List, ◌==◌, map}
use vanitykeygen.Vkg.{ClientInfo, Time}
use vanitykeygen.Runtime.{Env, Action, pure, gets, modify, ◌>>=◌, ◌>>◌}
use vanitykeygen.Table.{upsert, delete_where, update_where}
use vanitykeygen.Store.{
  ClientRow, Store, format_time, parse_time, call, now, id_or_new, time_or_now,
}

-- the loop body of ListClients
unfoldable pub scan_client : ClientRow → ClientInfo
scan_client r = record {
  id = r.id;
  hostname = r.hostname;
  version = r.version;
  seekers = r.seekers;
  key_rate = r.key_rate;
  key_count = r.key_count;
  last_seen = parse_time r.last_seen;
  status = r.status;
}

-- the columns of INSERT INTO clients, which are those that the conflict clause sets
unfoldable pub client_row : ClientInfo → ClientRow
client_row c = record {
  id = c.id;
  hostname = c.hostname;
  version = c.version;
  seekers = c.seekers;
  key_rate = c.key_rate;
  key_count = c.key_count;
  last_seen = format_time c.last_seen;
  status = c.status;
}

-- last_seen < ? AND status != 'offline'
unfoldable pub is_stale : ℕ → ClientRow → Bool
is_stale cutoff r = ltb r.last_seen cutoff && not (r.status == "offline")

abbrev pub set_offline : ClientRow → ClientRow
set_offline r = record r { status = "offline" }

-- status = 'offline' AND last_seen < ?
unfoldable pub is_gone : ℕ → ClientRow → Bool
is_gone cutoff r = (r.status == "offline") && ltb r.last_seen cutoff

module _ (env : Env) where
  -- UpsertClient; the result is the client as the caller sees it afterwards
  unfoldable pub upsert_client : ClientInfo → Action Store String ClientInfo
  unfolding client_row
  upsert_client c = do
    id ← id_or_new env c.id
    last_seen ← time_or_now env c.last_seen
    call env
    modify (λ s. record s {
      clients =
          upsert (λ r. r.id) (client_row (record c { id = id; last_seen = last_seen })) s.clients;
    })
    pure (record c { id = id; last_seen = last_seen })

  -- ListClients
  unfoldable pub list_clients : Action Store String (List ClientInfo)
  list_clients = do
    call env
    rows ← gets (λ s. s.clients)
    pure (map scan_client (env.order_by_desc ClientRow (λ r. r.last_seen) rows))

  -- time.Now().UTC().Add(-threshold).Format(time.RFC3339)
  unfoldable pub cutoff : Time → Action Store String ℕ
  cutoff threshold = do t ← now env; pure (format_time (t - threshold))

  -- MarkOfflineClients
  unfoldable pub mark_offline_clients : Time → Action Store String (Unit {0})
  unfolding cutoff is_stale
  mark_offline_clients threshold = do
    before ← cutoff threshold
    call env
    modify (λ s. record s { clients = update_where (is_stale before) set_offline s.clients })

  -- DeleteOfflineClients
  unfoldable pub delete_offline_clients : Time → Action Store String (Unit {0})
  unfolding cutoff is_gone
  delete_offline_clients threshold = do
    before ← cutoff threshold
    call env
    modify (λ s. record s { clients = delete_where (is_gone before) s.clients })
