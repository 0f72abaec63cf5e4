-- ===== src/Store.antt =====
-- pkg/store/store.go: the schema, and the calls of the database that the methods are made of.
-- A TEXT column that holds a time has the RFC 3339 text of a UTC instant; it is modelled by the whole
-- seconds that the text says, which are ordered as the texts are.
pub mod Calls
pub mod Targets
pub mod Matches
pub mod Clients
pub mod Clean
pub mod Open
pub mod Ids
pub mod Integrity
use vanitykeygen.Common.{
  ℤ, ℕ, zero, suc, ◌*◌, ◌/◌, Bool, String, Option, none, some, List, [], ◌∷◌, ◌==◌, if◌then◌else◌,
}
use vanitykeygen.Vkg.{Bytes, Time}
use vanitykeygen.Vkg.Id.{hex}
use vanitykeygen.Runtime.{Env, Outcome, ok, err, Action, pure}
use vanitykeygen.Text.{append}

-- t.Format(time.RFC3339), and time.Parse of that text
abbrev pub nanos : ℕ
nanos = 1_000_000_000

unfoldable pub format_time : Time → ℕ
format_time t = t / nanos

unfoldable pub parse_time : ℕ → Time
parse_time text = text * nanos

pub record TargetRow : Type 0 where
  pub id : String
  pub type : String
  pub pattern : String
  pub label : String
  pub active : Bool
  pub case_modes : String
  pub match_scope : String
  pub created_at : ℕ

pub record MatchRow : Type 0 where
  pub id : String
  pub target_id : String
  pub client_id : String
  pub timestamp : ℕ
  pub hostname : String
  pub seeker_id : ℕ
  pub match_string : String
  pub matched_authorized_key : Bool
  pub matched_fingerprint : Bool
  pub private_key : Bytes
  pub public_key : Bytes
  pub encoded_key : Bytes
  pub private_string : String
  pub authorized_string : String
  pub fingerprint : String

pub record ClientRow : Type 0 where
  pub id : String
  pub hostname : String
  pub version : String
  pub seekers : ℤ
  pub key_rate : ℕ
  pub key_count : ℕ
  pub last_seen : ℕ
  pub status : String

-- The tables, and the number of the next call out of the program.
pub record Store : Type 0 where
  pub targets : List TargetRow
  pub matches : List MatchRow
  pub clients : List ClientRow
  pub calls : ℕ

-- the database after `New` has run the schema on a new file
abbrev pub empty_store : Store
empty_store = record { targets = []; matches = []; clients = []; calls = 0 }

abbrev pub next_call : Store → Store
next_call s = record s { calls = suc s.calls }

abbrev faulted : Option String → Store → Outcome String (Unit {0}) × Store
faulted none s = (ok tt, s)
faulted (some e) s = (err e, s)

abbrev named : Outcome String Bytes → Store → Outcome String String × Store
named (ok b) s = (ok (hex b), s)
named (err e) s = (err (append "generate ID: " e), s)

module _ (env : Env) where
  -- a call of the database, which may fail and then changes nothing
  unfoldable pub call : Action Store String (Unit {0})
  call s = faulted (env.fault s.calls) (next_call s)

  -- time.Now().UTC()
  unfoldable pub now : Action Store String Time
  now s = (ok (env.now s.calls), next_call s)

  -- vkg.NewID
  unfoldable pub new_id : Action Store String String
  new_id s = named (env.random s.calls) (next_call s)

  -- `if x.ID == "" { x.ID, err = vkg.NewID() }`
  unfoldable pub id_or_new : String → Action Store String String
  unfolding new_id
  id_or_new id = if id == "" then new_id else pure id

  -- `if x.IsZero() { x = time.Now().UTC() }`
  unfoldable pub time_or_now : Time → Action Store String Time
  unfolding now
  time_or_now zero = now
  time_or_now t = pure t
