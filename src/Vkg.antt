-- ===== src/Vkg.antt =====
-- pkg/vkg/vkg.go: the data that server and client share.
-- The numbers of seekers are signed; another int, an int64 and a float64 are their 64-bit patterns, a
-- []byte is the list of its bytes, and
-- a time.Time is the nanoseconds since the zero Time, in UTC.
pub mod Id
use vanitykeygen.Common.{ℤ, ℕ, ◌≡◌, refl, Bool, List, String}

abbrev pub Bytes : Type 0
Bytes = List ℕ

abbrev pub Time : Type 0
Time = ℕ

-- the zero Time, `time.Time{}`
abbrev pub zero_time : Time
zero_time = 0

pub record Target : Type 0 where
  pub id : String
  pub type : String
  pub pattern : String
  pub label : String
  pub active : Bool
  pub case_modes : List String
  pub match_scope : String
  pub created_at : Time

pub record CompiledPattern : Type 0 where
  pub pattern : String
  pub match_fingerprint : Bool
  pub match_authorized_key : Bool

pub record Key : Type 0 where
  pub private_key : Bytes
  pub public_key : Bytes
  pub encoded_key : Bytes
  pub private_string : String
  pub authorized_string : String
  pub fingerprint : String

pub record Match : Type 0 where
  pub id : String
  pub target_id : String
  pub client_id : String
  pub timestamp : Time
  pub hostname : String
  pub seeker_id : ℕ
  pub match_string : String
  pub matched_authorized_key : Bool
  pub matched_fingerprint : Bool
  pub key : Key

pub record MatchSummary : Type 0 where
  pub id : String
  pub target_id : String
  pub client_id : String
  pub timestamp : Time
  pub hostname : String
  pub match_string : String
  pub matched_authorized_key : Bool
  pub matched_fingerprint : Bool
  pub fingerprint : String

-- Match.Summary
unfoldable pub summary : Match → MatchSummary
summary m = record {
  id = m.id;
  target_id = m.target_id;
  client_id = m.client_id;
  timestamp = m.timestamp;
  hostname = m.hostname;
  match_string = m.match_string;
  matched_authorized_key = m.matched_authorized_key;
  matched_fingerprint = m.matched_fingerprint;
  fingerprint = m.key.fingerprint;
}

pub record ClientInfo : Type 0 where
  pub id : String
  pub hostname : String
  pub version : String
  pub seekers : ℤ
  pub key_rate : ℕ
  pub key_count : ℕ
  pub last_seen : Time
  pub status : String

pub record Heartbeat : Type 0 where
  pub client_id : String
  pub hostname : String
  pub version : String
  pub seekers : ℤ
  pub key_rate : ℕ
  pub key_count : ℕ

pub record RegisterRequest : Type 0 where
  pub client_id : String
  pub hostname : String
  pub version : String
  pub seekers : ℤ

pub record RegisterResponse : Type 0 where
  pub client_id : String
