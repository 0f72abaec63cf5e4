-- ===== src/Client/Run.antt =====
-- pkg/client/main.go: the settings of the client, how Run starts and ends, and the log of a status. What the
-- flag package makes of the arguments is an argument; the seekers' goroutines are in Seeker and Totals.
pub mod Answers
pub mod Seekers
pub mod Named
pub mod Identity
use vanitykeygen.Common.{
  ℕ, zero, suc, ◌-◌, ◌*◌, ◌%◌, ◌^◌, ◌&&◌, ℤ, pos, negsuc, leb, ltb, String, Bool, Option, none,
  some, List, [], ◌∷◌, ◌++◌, ◌==◌, if◌then◌else◌,
}
use vanitykeygen.Vkg.{Time, zero_time}
use vanitykeygen.Runtime.{Outcome, ok, err, Action, ◌>>=◌, ◌>>◌}
use vanitykeygen.Text.{append}
use vanitykeygen.Client.{
  Client, Net, Event, Running, Telemetry, register, fetch_targets, main_loop, with_prefix,
}
use vanitykeygen.Client.Seeker.{SeekerStatus}

-- The variables that the flags set.
pub record Settings : Type 0 where
  pub server_uri : String
  pub num_seekers : ℤ

-- the defaults of FlagSet, on this number of CPUs
abbrev pub default_settings : ℕ → Settings
default_settings cpus = record { server_uri = "https://vkg"; num_seekers = pos cpus }

-- `if val := getenv("VKG_SERVER_URI"); val != "" { serverURI = val }`
unfoldable pub with_env : (String → String) → Settings → Settings
with_env getenv s =
    if getenv "VKG_SERVER_URI" == "" then s else record s { server_uri = getenv "VKG_SERVER_URI" }

-- the Client that Run makes
unfoldable pub new_client : Settings → String → String → Client
new_client settings hostname version = record {
  client_id = "";
  hostname = hostname;
  version = version;
  seekers = settings.num_seekers;
  patterns = none;
  key_count = 0;
  last_heartbeat = zero_time;
  last_key_count = 0;
  requests = 0;
}

abbrev during : String → Action Client String (Unit {0}) → Action Client String (Unit {0})
during context m c = let (r, c') = m c in (with_prefix context r, c')

-- the numbers from 1 to n
unfoldable pub up_to : ℕ → List ℕ
up_to zero = []
up_to (suc n) = up_to n ++ suc n ∷ []

-- the IDs of the seekers, `for i := 1; i <= c.seekers; i++`
unfoldable pub seeker_ids : ℤ → List ℕ
seeker_ids (pos n) = up_to n
seeker_ids (negsuc n) = []

-- an int as its 64 bits
abbrev pub bits : ℤ → ℕ
bits (pos n) = n % 2 ^ 64
bits (negsuc n) = 2 ^ 64 - suc n

-- `c.seekers*2`, as its 64 bits
abbrev pub doubled : ℤ → ℕ
doubled n = bits n * 2 % 2 ^ 64

-- whether `make(chan seekerStatus, c.seekers*2)` returns: it panics for a negative capacity, and for one
-- that is beyond what the runtime allocates
unfoldable pub makes_channel : ℕ → ℤ → Bool
makes_channel most seekers = ltb (doubled seekers) (2 ^ 63) && leb (doubled seekers) most

-- What a client ended with: the error of its start, the panic of make, or the seekers that it launched
-- and the state of its main loop when the context was done.
pub data Ended : Type 0 where
  not_started : String → Ended
  panicked : Ended
  stopped : List ℕ → Running → Ended

-- `most` is the greatest capacity of a channel of statuses that the runtime allocates.
module _ (net : String → Net) (most : ℕ) where
  -- register and fetch
  unfoldable pub start : Net → Action Client String (Unit {0})
  start server = do
    during "registration failed: " (register server)
    during "initial target fetch: " (fetch_targets server)

  abbrev pub launched : Net → Outcome String (Unit {0}) × Client → List Event → Ended
  launched server (err e, c) events = not_started e
  launched server (ok u, c) events =
      if makes_channel most c.seekers
      then stopped (seeker_ids c.seekers) (
          main_loop server events
            (record { client = c; stats = record { key_count = 0; hit_count = 0 } }))
      else panicked

  -- Run, against the server of the URI; a failure to lower the priority is only logged
  unfoldable pub run_client :
      (String → String) → Outcome String Settings → String → String → List Event → Ended
  unfolding start
  run_client getenv (err e) hostname version events = not_started e
  run_client getenv (ok flags) hostname version events =
      let settings = with_env getenv flags in
      let server = net settings.server_uri in
      launched server (start server (new_client settings hostname version)) events

-- LogValue: the attributes by their names
pub data Attribute : Type 0 where
  time_value : Time → Attribute
  int_value : ℕ → Attribute
  bool_value : Bool → Attribute
  string_value : String → Attribute

unfoldable pub log_value : SeekerStatus → List (String × Attribute)
log_value s =
    ("timestamp", time_value s.timestamp)
    ∷ ("sid", int_value s.sid)
    ∷ ("key_count", int_value s.key_count)
    ∷ ("matched_authorized_key", bool_value s.matched_authorized_key)
    ∷ ("matched_fingerprint", bool_value s.matched_fingerprint)
    ∷ ("fingerprint", string_value s.key.fingerprint)
    ∷ ("auth", string_value s.key.authorized_key)
    ∷ []
