-- ===== src/Store/Matches.antt =====
-- pkg/store/store.go: the methods on the matches table.
pub mod Roundtrip
use vanitykeygen.Common.{
  ℕ, zero, suc, ℤ, pos, negsuc, String, Option, none, some, List, ◌==◌, if◌then◌else◌, map, filter,
  length, take,
}
use vanitykeygen.Vkg.{Match}
use vanitykeygen.Runtime.{Env, Action, pure, fail, gets, modify, ◌>>=◌, ◌>>◌}
use vanitykeygen.Table.{lookup, insert}
use vanitykeygen.Store.{MatchRow, Store, format_time, parse_time, call, id_or_new, time_or_now}
use mathlib.Core.Option

-- the loop body of scanMatches
unfoldable pub scan_match : MatchRow → Match
scan_match r = record {
  id = r.id;
  target_id = r.target_id;
  client_id = r.client_id;
  timestamp = parse_time r.timestamp;
  hostname = r.hostname;
  seeker_id = r.seeker_id;
  match_string = r.match_string;
  matched_authorized_key = r.matched_authorized_key;
  matched_fingerprint = r.matched_fingerprint;
  key = record {
    private_key = r.private_key;
    public_key = r.public_key;
    encoded_key = r.encoded_key;
    private_string = r.private_string;
    authorized_string = r.authorized_string;
    fingerprint = r.fingerprint;
  };
}

-- the columns of INSERT INTO matches
unfoldable pub match_row : Match → MatchRow
match_row m = record {
  id = m.id;
  target_id = m.target_id;
  client_id = m.client_id;
  timestamp = format_time m.timestamp;
  hostname = m.hostname;
  seeker_id = m.seeker_id;
  match_string = m.match_string;
  matched_authorized_key = m.matched_authorized_key;
  matched_fingerprint = m.matched_fingerprint;
  private_key = m.key.private_key;
  public_key = m.key.public_key;
  encoded_key = m.key.encoded_key;
  private_string = m.key.private_string;
  authorized_string = m.key.authorized_string;
  fingerprint = m.key.fingerprint;
}

abbrev stored_matches : Option (List MatchRow) → Action Store String (Unit {0})
stored_matches none = fail "UNIQUE constraint failed: matches.id"
stored_matches (some rows) = modify (λ s. record s { matches = rows })

-- the INSERT
unfoldable pub insert_match : MatchRow → Action Store String (Unit {0})
insert_match r s = stored_matches (insert (λ x. x.id) r s.matches) s

-- `if limit <= 0 { limit = 100 }`
unfoldable pub clamp_limit : ℤ → ℕ
clamp_limit (pos zero) = 100
clamp_limit (pos (suc n)) = suc n
clamp_limit (negsuc n) = 100

-- the WHERE clause of ListMatches and MatchCount, present if an ID is given
unfoldable pub of_target : String → List MatchRow → List MatchRow
of_target id rows = if id == "" then rows else filter (λ m. m.target_id == id) rows

module _ (env : Env) where
  -- RecordMatch; the result is the match as the caller sees it afterwards
  unfoldable pub record_match : Match → Action Store String Match
  unfolding insert_match match_row
  record_match m = do
    id ← id_or_new env m.id
    timestamp ← time_or_now env m.timestamp
    call env
    insert_match (match_row (record m { id = id; timestamp = timestamp }))
    pure (record m { id = id; timestamp = timestamp })

  -- ListMatches
  unfoldable pub list_matches : String → ℤ → Action Store String (List Match)
  unfolding clamp_limit of_target
  list_matches target_id limit = do
    call env
    rows ← gets (λ s. of_target target_id s.matches)
    let ordered = env.order_by_desc MatchRow (λ r. r.timestamp) rows
    pure (map scan_match (take (clamp_limit limit) ordered))

  -- GetMatch; `none` is (nil, nil)
  unfoldable pub get_match : String → Action Store String (Option Match)
  get_match id = do
    call env
    row ← gets (λ s. lookup (λ r. r.id) id s.matches)
    pure (Option.map scan_match row)

  -- MatchCount
  unfoldable pub match_count : String → Action Store String ℕ
  unfolding of_target
  match_count target_id = do
    call env
    rows ← gets (λ s. of_target target_id s.matches)
    pure (length rows)
