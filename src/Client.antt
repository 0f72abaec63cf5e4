-- ===== src/Client.antt =====
-- pkg/client/main.go: the client's requests to the server and its main loop.
-- The server's answers are an argument, by the number of the request.
pub mod Seeker
pub mod Counting
pub mod Totals
pub mod Genuine
pub mod InStep
pub mod Reports
pub mod Attributed
pub mod Run
pub mod Drains
use vanitykeygen.Common.{
  ℤ, ℕ, suc, ◌+◌, ◌-◌, ◌%◌, ◌^◌, String, Bool, true, false, not, ◌&&◌, Option, none, some, List, [],
  ◌∷◌, ◌==◌, eqb, leb, ltb, if◌then◌else◌,
}
use vanitykeygen.Vkg.{
  Time, CompiledPattern, Heartbeat, RegisterRequest, RegisterResponse, Match, zero_time,
}
use vanitykeygen.Runtime.{Outcome, ok, err, Action, pure, fail, gets, modify, ◌>>=◌, ◌>>◌}
use vanitykeygen.Text.{append}
use vanitykeygen.Client.Seeker.{SeekerStatus, wrap}

-- A response whose body is decoded: its status, and what the decoder makes of it.
pub record Response (A : Type 0) : Type 0 where
  pub status : ℕ
  pub decoded : Outcome String A

-- What the HTTP client returns for the request with this number. json.Marshal has no error for what is
-- sent: texts, numbers, bytes and the zero time.
pub record Net : Type 0 where
  pub get_patterns : ℕ → Outcome String (Response (List CompiledPattern))
  pub post_register : ℕ → RegisterRequest → Outcome String (Response RegisterResponse)
  pub post_heartbeat : ℕ → Heartbeat → Outcome String ℕ
  pub post_match : ℕ → Match → Outcome String ℕ
  -- the first 8 bytes of the SHA-256 of a text, by hex.EncodeToString
  pub short_hash : String → String
  -- string of the bytes of the encoded key
  pub text_of : List ℕ → String
  -- resp.Status
  pub status_text : ℕ → String
  -- a count divided by a duration in seconds, as the float64 bit pattern
  pub rate : ℕ → ℕ → ℕ

-- Client, with the number of its next request; `patterns` is none before the first Store.
pub record Client : Type 0 where
  pub client_id : String
  pub hostname : String
  pub version : String
  pub seekers : ℤ
  pub patterns : Option (List CompiledPattern)
  pub key_count : ℕ
  pub last_heartbeat : Time
  pub last_key_count : ℕ
  pub requests : ℕ

-- currentPatterns
unfoldable pub current_patterns : Client → List CompiledPattern
current_patterns c = elim c.patterns [ none ↦ [] | some ps ↦ ps ]

-- `resp.StatusCode < 200 || resp.StatusCode >= 300` is false
unfoldable pub is_success : ℕ → Bool
is_success status = leb 200 status && ltb status 300

abbrev pub with_prefix : {A : Type 0} → String → Outcome String A → Outcome String A
with_prefix prefix (ok a) = ok a
with_prefix prefix (err e) = err (append prefix e)

-- stableID
unfoldable pub stable_id : Net → String → String
stable_id net hostname = net.short_hash (append "vkg-client:" hostname)

abbrev pub request : {A : Type 0} → (ℕ → Outcome String A) → Action Client String A
request send c = (send c.requests, record c { requests = suc c.requests })

abbrev pub check_status : Net → String → ℕ → Action Client String (Unit {0})
check_status net prefix status =
    if is_success status
    then pure tt
    else fail (append prefix (append "server returned " (net.status_text status)))

abbrev decode : {A : Type 0} → String → Outcome String A → Action Client String A
decode prefix r c = (with_prefix prefix r, c)

module _ (net : Net) where
  -- fetchTargets
  unfoldable pub fetch_targets : Action Client String (Unit {0})
  fetch_targets = do
    resp ← request net.get_patterns
    check_status net "fetch targets: " resp.status
    fetched ← decode "decode patterns: " resp.decoded
    modify (λ c. record c { patterns = some fetched })

  -- the request of register
  unfoldable pub register_request : Client → RegisterRequest
  register_request c = record {
    client_id = stable_id net c.hostname;
    hostname = c.hostname;
    version = c.version;
    seekers = c.seekers;
  }

  -- register
  unfoldable pub register : Action Client String (Unit {0})
  register = do
    req ← gets register_request
    resp ← request (λ n. with_prefix "register: " (net.post_register n req))
    check_status net "register: " resp.status
    result ← decode "decode register response: " resp.decoded
    modify (λ c. record c { client_id = result.client_id })

  -- keyRate; the zero Time is before every other
  unfoldable pub key_rate : Time → Client → ℕ
  key_rate now c =
      if ltb c.last_heartbeat now && not (eqb c.last_heartbeat zero_time)
      then net.rate (wrap (c.key_count + 2 ^ 64 - c.last_key_count)) (now - c.last_heartbeat)
      else 0

  unfoldable pub heartbeat_of : Time → Client → Heartbeat
  heartbeat_of now c = record {
    client_id = c.client_id;
    hostname = c.hostname;
    version = c.version;
    seekers = c.seekers;
    key_rate = key_rate now c;
    key_count = c.key_count;
  }

  -- sendHeartbeat, at the time of its clock reading
  unfoldable pub send_heartbeat : Time → Action Client String (Unit {0})
  send_heartbeat now = do
    hb ← gets (heartbeat_of now)
    modify (λ c. record c { last_heartbeat = now; last_key_count = c.key_count })
    status ← request (λ n. net.post_heartbeat n hb)
    check_status net "heartbeat: " status

  -- the match that reportMatch posts
  unfoldable pub match_of : SeekerStatus → Client → Match
  match_of s c = record {
    id = "";
    target_id = "";
    client_id = c.client_id;
    timestamp = zero_time;
    hostname = c.hostname;
    seeker_id = s.sid;
    match_string = s.match_string;
    matched_authorized_key = s.matched_authorized_key;
    matched_fingerprint = s.matched_fingerprint;
    key = record {
      private_key = s.key.private_key;
      public_key = s.key.public_key;
      encoded_key = s.key.encoded_key;
      private_string = net.text_of s.key.encoded_key;
      authorized_string = s.key.authorized_key;
      fingerprint = s.key.fingerprint;
    };
  }

  -- reportMatch
  unfoldable pub report_match : SeekerStatus → Action Client String (Unit {0})
  report_match s = do
    m ← gets (match_of s)
    status ← request (λ n. with_prefix "post match: " (net.post_match n m))
    check_status net "report match: " status

-- telemetry; the start is only logged
pub record Telemetry : Type 0 where
  pub key_count : ℕ
  pub hit_count : ℕ

-- What the `select` of the main loop takes; and what happens between, that a seeker counts a key.
pub data Event : Type 0 where
  target_tick stats_tick key_counted : Event
  heartbeat_tick : Time → Event
  status_update : SeekerStatus → Event

-- the client with its telemetry
pub record Running : Type 0 where
  pub client : Client
  pub stats : Telemetry

module _ (net : Net) where
  -- an error of a request is only logged
  abbrev pub logged : Action Client String (Unit {0}) → Running → Running
  logged m run = record run { client = (m run.client).1 }

  abbrev pub add_keys : SeekerStatus → Running → Running
  add_keys s run = record run {
    stats = record run.stats { key_count = wrap (run.stats.key_count + s.key_count) };
  }

  abbrev pub add_hit : Running → Running
  add_hit run = record run {
    stats = record run.stats { hit_count = wrap (run.stats.hit_count + 1) };
  }

  -- c.keyCount.Add(1)
  abbrev pub count_key : Running → Running
  count_key run = record run {
    client = record run.client { key_count = wrap (run.client.key_count + 1) };
  }

  -- one turn of the main loop, or a key that a seeker counts
  unfoldable pub handle_event : Event → Running → Running
  handle_event target_tick run = logged (fetch_targets net) run
  handle_event stats_tick run = run
  handle_event key_counted run = count_key run
  handle_event (heartbeat_tick now) run = logged (send_heartbeat net now) run
  handle_event (status_update s) run =
      let counted = add_keys s run in
      if s.key.fingerprint == "" then counted else logged (report_match net s) (add_hit counted)

  -- the main loop, over what it takes and the keys counted until the context is done
  unfoldable pub main_loop : List Event → Running → Running
  unfolding handle_event
  main_loop [] run = run
  main_loop (event ∷ events) run = main_loop events (handle_event event run)
