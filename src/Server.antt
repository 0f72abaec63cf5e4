-- ===== src/Server.antt =====
-- pkg/server/server.go: the state of the server and what its handlers are made of.
-- A handler is an action that may stop early with a reply. `aborted` is a panic, which net/http
-- recovers from by dropping the connection.
pub mod Compile
pub mod Validation
pub mod Valid
pub mod Keeps
pub mod Clean
pub mod Stored
pub mod Requests
pub mod Attribution
pub mod Limit
pub mod Lists
pub mod TargetRoutes
pub mod MatchRoutes
pub mod ClientRoutes
pub mod Background
pub mod Reaping
pub mod Privacy
pub mod Stream
pub mod Run
use vanitykeygen.Common.{ℕ, String, Bool, Option, none, some, List, []}
use vanitykeygen.Vkg.{Target, CompiledPattern, Match, ClientInfo, RegisterResponse}
use vanitykeygen.Runtime.{Env, Payload, Outcome, ok, err, Action, ◌>>=◌, ◌>>◌}
use vanitykeygen.Store.{Store, empty_store}
use vanitykeygen.Hub.{Hub, new_hub}
use vanitykeygen.Hub
use vanitykeygen.Server.Attribution.{Cache}
use vanitykeygen.Server.Validation.{Check}

-- Server: the store with its database, the hub and the compiled expressions.
pub record Server : Type 0 where
  pub store : Store
  pub hub : Hub
  pub re_cache : Cache

-- newServer, on a new database
abbrev pub new_server : Server
new_server = record { store = empty_store; hub = new_hub; re_cache = [] }

-- the object of handleStats
pub record Stats : Type 0 where
  pub active_clients : ℕ
  pub total_key_rate : ℕ
  pub total_key_count : ℕ
  pub total_matches : ℕ

pub data Body : Type 0 where
  no_content : Body
  error : String → Body
  target : Target → Body
  targets : List Target → Body
  patterns : List CompiledPattern → Body
  match : Match → Body
  matches : List Match → Body
  clients : List ClientInfo → Body
  registered : RegisterResponse → Body
  stats : Stats → Body
  version : String → Body

pub data Reply : Type 0 where
  reply : ℕ → Body → Reply
  aborted : Reply

abbrev pub Handler : Type 0
Handler = Action Server Reply Reply

abbrev pub write_error : ℕ → String → Reply
write_error status msg = reply status (error msg)

-- http.StatusInternalServerError with the error's text
abbrev pub internal : String → Reply
internal e = write_error 500 e

abbrev pub failing : {A : Type 0} → Outcome String A → (String → Reply) → Outcome Reply A
failing (ok a) on_error = ok a
failing (err e) on_error = err (on_error e)

-- a call of a store's method, with `if err != nil { …; return }`
abbrev pub with_store :
    {A : Type 0} → Action Store String A → (String → Reply) → Action Server Reply A
with_store m on_error s =
    let (r, store) = m s.store in (failing r on_error, record s { store = store })

-- readJSON, by what the decoder makes of the body
abbrev pub read_json : {A : Type 0} → Option A → Action Server Reply A
read_json none s = (err (write_error 400 "invalid JSON"), s)
read_json (some a) s = (ok a, s)

-- `if err := validate(…); err != nil { …; return }`
abbrev pub require : Check → Action Server Reply (Unit {0})
require none s = (ok tt, s)
require (some e) s = (err (write_error 400 e), s)

abbrev sending : Option Hub → Server → Outcome Reply (Unit {0}) × Server
sending none s = (err aborted, s)
sending (some h) s = (ok tt, record s { hub = h })

-- s.hub.Broadcast
unfoldable pub broadcast : Env → String → Payload → Action Server Reply (Unit {0})
broadcast env event_type payload s = sending (Hub.broadcast env event_type payload s.hub) s

-- what the client gets, and the server afterwards
abbrev pub finish : Outcome Reply Reply × Server → Reply × Server
finish (ok r, s) = (r, s)
finish (err r, s) = (r, s)

abbrev pub serve : Handler → Server → Reply × Server
serve handler s = finish (handler s)
