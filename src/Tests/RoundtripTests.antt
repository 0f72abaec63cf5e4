-- ===== src/Tests/RoundtripTests.antt =====
-- What is written is read back, at concrete inputs, and new IDs.
use Prim.Native.String.{count}
use vanitykeygen.Common.{
  ℕ, All, ◌%◌, String, some, [], ◌∷◌, ◌==◌, ◌≡◌, ◌≢◌, refl, arith, if◌then◌else◌,
}
use vanitykeygen.Vkg.{Match, ClientInfo}
use vanitykeygen.Runtime.{Env, Outcome, ok, err}
use vanitykeygen.Store.{Store, empty_store, call, next_call, id_or_new, time_or_now, new_id}
use vanitykeygen.Vkg.Id.{hex, IsByte}
use vanitykeygen.Store.Ids.{Fills, new_id-distinct}
use vanitykeygen.Store.Matches.{record_match, match_row, insert_match}
use vanitykeygen.Store.Matches.Roundtrip.{IsRecorded, record_match-IsRecorded, whole_seconds}
use vanitykeygen.Store.Clients.{upsert_client, client_row}
use vanitykeygen.Store.Clients.Roundtrip.{upsert_client-found, found, whole_seconds as whole_client}
use vanitykeygen.Hub
use vanitykeygen.Store.Targets.{list_active_targets}
use vanitykeygen.Server.Attribution.{attribute}
use vanitykeygen.Table.{insert, has_key, upsert}
use vanitykeygen.Server.{new_server, Server, Reply, reply, Body, serve, broadcast}
use vanitykeygen.Server.Compile.{default_config}
use vanitykeygen.Server.Requests.{Request, route}
use vanitykeygen.Server.Requests.Roundtrip.{post-get}
use vanitykeygen.Server.MatchRoutes.{handle_post_match, attribute_match}
use vanitykeygen.Tests.{quiet, hit, client}

-- the match of an outcome, and the client
abbrev match_in : Outcome String Match → Match
match_in (ok m) = m
match_in (err e) = hit

abbrev client_in : Outcome String ClientInfo → ClientInfo
client_in (ok c) = c
client_in (err e) = client

abbrev recorded : Match
recorded = match_in (record_match quiet hit empty_store).0

abbrev with_match : Store
with_match = (record_match quiet hit empty_store).1

recording : record_match quiet hit empty_store ≡ (ok recorded, with_match)
unfolding record_match insert_match match_row insert has_key id_or_new time_or_now call
recording = refl

record_match-IsRecorded_example :
    (recorded ≡ record hit { id = recorded.id; timestamp = recorded.timestamp })
    × (hit.id ≢ "" → recorded.id ≡ hit.id)
    × IsRecorded empty_store with_match recorded
record_match-IsRecorded_example =
    record_match-IsRecorded quiet hit recorded empty_store with_match recording

abbrev seen : ClientInfo
seen = client_in (upsert_client quiet client empty_store).0

abbrev with_client : Store
with_client = (upsert_client quiet client empty_store).1

upserting : upsert_client quiet client empty_store ≡ (ok seen, with_client)
unfolding upsert_client client_row upsert has_key id_or_new time_or_now call
upserting = refl

upsert_client-found_example :
    (seen ≡ record client { id = seen.id; last_seen = seen.last_seen })
    × (client.id ≢ "" → seen.id ≡ client.id)
    × (found "c1" with_client
        ≡ (if seen.id == "c1" then some (whole_client seen) else found "c1" empty_store))
upsert_client-found_example =
    upsert_client-found quiet client seen empty_store with_client "c1" upserting

abbrev posting : Reply × Server
posting = serve (route quiet default_config (Request.post_match (some hit))) new_server

abbrev match_of_reply : Reply → Match
match_of_reply (reply status (Body.match m)) = m
match_of_reply _ = hit

posting-replies : posting ≡ (reply 201 (Body.match (match_of_reply posting.0)), posting.1)
unfolding route handle_post_match attribute_match broadcast record_match insert_match match_row
    insert has_key id_or_new time_or_now call list_active_targets attribute Hub.broadcast
    Hub.offer_each
posting-replies = refl

post-get_example :
    (serve
      (route quiet default_config (Request.get_match (match_of_reply posting.0).id))
      posting.1).0
    ≡ reply 200 (Body.match (whole_seconds (match_of_reply posting.0)))
post-get_example =
    post-get quiet default_config hit (match_of_reply posting.0) new_server posting.1
      posting-replies refl

-- the bytes of the concrete environment, below 256
abbrev bytes_only : Env
bytes_only = record quiet { random = λ n. ok (0 ∷ 0 ∷ 0 ∷ 0 ∷ 0 ∷ 0 ∷ 1 ∷ n % 256 ∷ []) }

eight_bytes : (n : ℕ) → All IsByte (0 ∷ 0 ∷ 0 ∷ 0 ∷ 0 ∷ 0 ∷ 1 ∷ n % 256 ∷ [])
eight_bytes n = ground arith

bytes_only-Fills : Fills bytes_only
bytes_only-Fills = record {
  bytes = λ n b h.
      let same : 0 ∷ 0 ∷ 0 ∷ 0 ∷ 0 ∷ 0 ∷ 1 ∷ n % 256 ∷ [] ≡ b = cc in
      rw (← same) (refl, eight_bytes n);
}

abbrev id_one : String
id_one = "0000000000000100"

abbrev id_two : String
id_two = "0000000000000101"

first_id : new_id bytes_only empty_store ≡ (ok id_one, next_call empty_store)
unfolding new_id hex
first_id = refl

second_id :
    new_id bytes_only (next_call empty_store) ≡ (ok id_two, next_call (next_call empty_store))
unfolding new_id hex
second_id = refl

new_id-distinct_example :
    (count id_one ≡ 16) × (id_one ≡ id_two → bytes_only.random 0 ≡ bytes_only.random 1)
new_id-distinct_example =
    new_id-distinct bytes_only bytes_only-Fills empty_store (next_call empty_store)
      (next_call empty_store) (next_call (next_call empty_store)) id_one id_two first_id second_id
