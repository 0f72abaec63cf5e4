-- ===== src/Client/Run/Named.antt =====
-- pkg/client/main.go: what the main loop keeps of a client: its name, its patterns, its count of keys.
use vanitykeygen.Common.{
  ℕ, ◌+◌, ◌%◌, ◌^◌, ◌<◌, Bool, arith, count, ap, subst, true, false, String, some, List, [], ◌∷◌,
  ◌==◌, ◌≡◌, refl, Bool-cases, inl, inr,
}
use vanitykeygen.Vkg.{Time, CompiledPattern}
use vanitykeygen.Client.Seeker.{SeekerStatus, wrap}
use vanitykeygen.Runtime.{Outcome, ◌>>=◌}
use vanitykeygen.Runtime.Laws.{Keeps, bind-Keeps}
use vanitykeygen.Client.{
  Client, Net, request, check_status, with_prefix, heartbeat_of, match_of, is_success,
  status_update, target_tick, stats_tick, key_counted, heartbeat_tick, Event, Running,
  fetch_targets, send_heartbeat, report_match, main_loop, handle_event,
}
use vanitykeygen.Client.Run.Answers.{Fetched, IsServed, fetch_targets_cases}

-- A client with this ID and count of keys, that works for the one that Run made, and holds patterns that the server gave.
pub record IsNamed (server : Net) (id : String) (made : Client) (keys : ℕ) (c : Client)
    : Type 0 where
  pub client_id : c.client_id ≡ id
  pub hostname : c.hostname ≡ made.hostname
  pub version : c.version ≡ made.version
  pub seekers : c.seekers ≡ made.seekers
  pub counted : c.key_count ≡ keys
  pub patterns : List CompiledPattern
  pub holds : c.patterns ≡ some patterns
  pub served : IsServed server patterns

-- what the seekers add to keyCount
abbrev pub is_key : Event → Bool
is_key key_counted = true
is_key _ = false

abbrev counted_by : Event → ℕ → ℕ
counted_by key_counted keys = wrap (keys + 1)
counted_by (status_update s) keys = keys
counted_by (heartbeat_tick now) keys = keys
counted_by target_tick keys = keys
counted_by stats_tick keys = keys

abbrev counted_all : List Event → ℕ → ℕ
counted_all [] keys = keys
counted_all (event ∷ events) keys = counted_all events (counted_by event keys)

counted_all-count :
    (events : List Event) (keys : ℕ)
    → keys < 2 ^ 64
    → counted_all events keys ≡ (keys + count is_key events) % 2 ^ 64
counted_all-count [] keys h = omega (arith, h)
counted_all-count (key_counted ∷ events) keys h =
    omega (arith, counted_all-count events (wrap (keys + 1)) (omega arith))
counted_all-count (status_update s ∷ events) keys h = omega (arith, counted_all-count events keys h)
counted_all-count (heartbeat_tick now ∷ events) keys h =
    omega (arith, counted_all-count events keys h)
counted_all-count (target_tick ∷ events) keys h = omega (arith, counted_all-count events keys h)
counted_all-count (stats_tick ∷ events) keys h = omega (arith, counted_all-count events keys h)

counted_all-zero : (events : List Event) → counted_all events 0 ≡ count is_key events % 2 ^ 64
counted_all-zero events = omega (arith, counted_all-count events 0 (omega arith))

module _ (server : Net) where
  module _ (id : String) (made : Client) (keys : ℕ) where
    fetch_targets-Keeps : Keeps (IsNamed server id made keys) (fetch_targets server)
    fetch_targets-Keeps c h = elim (fetch_targets_cases server c) [
      | Fetched.failed e out ↦ rw out (record {
        client_id = h.client_id;
        hostname = h.hostname;
        version = h.version;
        seekers = h.seekers;
        counted = h.counted;
        patterns = h.patterns;
        holds = h.holds;
        served = h.served;
      })
      | Fetched.fetched ps is out ↦ rw out (record {
        client_id = h.client_id;
        hostname = h.hostname;
        version = h.version;
        seekers = h.seekers;
        counted = h.counted;
        patterns = ps;
        holds = refl;
        served = is;
      })
    ]

    request-Keeps :
        {A : Type 0} (send : ℕ → Outcome String A)
        → Keeps (IsNamed server id made keys) (request send)
    request-Keeps send c h = record {
      client_id = h.client_id;
      hostname = h.hostname;
      version = h.version;
      seekers = h.seekers;
      counted = h.counted;
      patterns = h.patterns;
      holds = h.holds;
      served = h.served;
    }

    check_status-Keeps :
        (prefix : String) (status : ℕ)
        → Keeps (IsNamed server id made keys) (check_status server prefix status)
    check_status-Keeps prefix status c h = elim (Bool-cases (is_success status)) [
      | inl good ↦ rw good h
      | inr bad ↦ rw bad h
    ]

    -- a request of which only the status counts
    posts-Keeps :
        (send : ℕ → Outcome String ℕ) (prefix : String)
        → Keeps (IsNamed server id made keys) (request send >>= check_status server prefix)
    posts-Keeps send prefix =
        bind-Keeps {E = String} (IsNamed server id made keys) (request send)
          (check_status server prefix) (request-Keeps send) (check_status-Keeps prefix)

    send_heartbeat-Keeps :
        (now : Time) → Keeps (IsNamed server id made keys) (send_heartbeat server now)
    unfolding send_heartbeat
    send_heartbeat-Keeps now c h =
        posts-Keeps (λ n. server.post_heartbeat n (heartbeat_of server now c)) "heartbeat: "
          (record c { last_heartbeat = now; last_key_count = c.key_count })
          (record {
            client_id = h.client_id;
            hostname = h.hostname;
            version = h.version;
            seekers = h.seekers;
            counted = h.counted;
            patterns = h.patterns;
            holds = h.holds;
            served = h.served;
          })

    report_match-Keeps :
        (s : SeekerStatus) → Keeps (IsNamed server id made keys) (report_match server s)
    unfolding report_match
    report_match-Keeps s c h =
        posts-Keeps (λ n. with_prefix "post match: " (server.post_match n (match_of server s c)))
          "report match: " c h

  handle_event-IsNamed :
      (id : String) (made : Client) (keys : ℕ) (event : Event) (run : Running)
      → IsNamed server id made keys run.client
      → IsNamed server id made (counted_by event keys) (handle_event server event run).client
  unfolding handle_event
  handle_event-IsNamed id made keys target_tick run h =
      fetch_targets-Keeps id made keys run.client h
  handle_event-IsNamed id made keys stats_tick run h = h
  handle_event-IsNamed id made keys key_counted run h = record {
    client_id = h.client_id;
    hostname = h.hostname;
    version = h.version;
    seekers = h.seekers;
    counted = ap (λ n. wrap (n + 1)) h.counted;
    patterns = h.patterns;
    holds = h.holds;
    served = h.served;
  }
  handle_event-IsNamed id made keys (heartbeat_tick now) run h =
      send_heartbeat-Keeps id made keys now run.client h
  handle_event-IsNamed id made keys (status_update s) run h =
      elim (Bool-cases (s.key.fingerprint == "")) [
        | inl none_found ↦ rw (handle_event, none_found) h
        | inr found ↦ rw (handle_event, found) (report_match-Keeps id made keys s run.client h)
      ]

  main_loop-IsNamed :
      (id : String) (made : Client) (keys : ℕ) (events : List Event) (run : Running)
      → IsNamed server id made keys run.client
      → IsNamed server id made (counted_all events keys) (main_loop server events run).client
  unfolding main_loop
  main_loop-IsNamed id made keys [] run h = h
  main_loop-IsNamed id made keys (event ∷ events) run h =
      main_loop-IsNamed id made (counted_by event keys) events (handle_event server event run)
        (handle_event-IsNamed id made keys event run h)

  pub looped-IsNamed :
      (id : String) (made : Client) (events : List Event) (run : Running)
      → IsNamed server id made 0 run.client
      → IsNamed server id made (count is_key events % 2 ^ 64) (main_loop server events run).client
  looped-IsNamed id made events run h =
      subst (λ k. IsNamed server id made k (main_loop server events run).client)
        (counted_all-zero events) (main_loop-IsNamed id made 0 events run h)
