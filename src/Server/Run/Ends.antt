-- ===== src/Server/Run/Ends.antt =====
-- pkg/server/server.go: how Run ends.
use vanitykeygen.Common.{
  ℕ, ◌≢◌, arith, String, true, some, List, [], ◌∷◌, ◌==◌, ◌≡◌, refl, sym, Bool-cases, inl, inr,
}
use vanitykeygen.Vkg.{Target}
use vanitykeygen.Runtime.{Env, Outcome, ok, err}
use vanitykeygen.Runtime.Laws.{Keeps, bind-Keeps}
use vanitykeygen.Runtime.Order.{Sorts}
use vanitykeygen.Hub.{Hub, new_hub}
use vanitykeygen.Hub.Safety.{registered, IsSound, new_hub-IsSound, close_lem}
use vanitykeygen.Store.{Store}
use vanitykeygen.Store.Open.{Database, unopened, close_db, Opened, new_store_cases}
use vanitykeygen.Store.Integrity.{IsConsistent}
use vanitykeygen.Store.Targets.{create_target}
use vanitykeygen.Store.Integrity.Methods.{at_call-IsConsistent, create_target-Keeps}
use vanitykeygen.Server.{Server, new_server}
use vanitykeygen.Server.Background.{
  wrap, seed_default_target, seed_words, seed_regex_target, seeded, seed_empty, default_words,
}
use vanitykeygen.Server.Requests.{Happening, happen_all}
use vanitykeygen.Server.Requests.Reading.{list_targets-Keeps}
use vanitykeygen.Server.Requests.Hubs.{happen_all-IsSound}
use vanitykeygen.Server.Requests.Integrity.{happen_all-IsConsistent}
use vanitykeygen.Server.Run.{
  Settings, with_env, Ending, listener_failed, interrupted, Stopped, stop, seeded_run, run_server,
}

module _ (env : Env) where
  wrapped-Keeps :
      (context : String) (t : Target)
      → Keeps IsConsistent (λ s. wrap context (create_target env t s))
  wrapped-Keeps context t s h = go (create_target env t s) (create_target-Keeps env t s h)
    where
      go : (r : Outcome String Target × Store) → IsConsistent r.1 → IsConsistent (wrap context r).1
      go (ok a, s) h = h
      go (err e, s) h = h

  seed_regex_target-Keeps :
      (pattern label : String) → Keeps IsConsistent (seed_regex_target env pattern label)
  unfolding seed_regex_target
  seed_regex_target-Keeps pattern label =
      bind-Keeps IsConsistent _ _ (wrapped-Keeps "seed regex target" (seeded "regex" pattern label))
        (λ t s h. h)

  seed_words-Keeps : (ws : List String) → Keeps IsConsistent (seed_words env ws)
  unfolding seed_words
  seed_words-Keeps [] = λ s h. h
  seed_words-Keeps (w ∷ ws) =
      bind-Keeps IsConsistent _ _ (wrapped-Keeps _ (seeded "word" w w)) (λ t. seed_words-Keeps ws)

  seed_empty-Keeps :
      (flag var : String) (ts : List Target) → Keeps IsConsistent (seed_empty env flag var ts)
  seed_empty-Keeps flag var (t ∷ ts) = λ s h. h
  seed_empty-Keeps flag var [] = elim (Bool-cases (flag == "")) [
    | inr given ↦ rw given (seed_regex_target-Keeps flag "Default")
    | inl missing ↦ elim (Bool-cases (var == "")) [
      | inr set ↦ rw (missing, set) (seed_regex_target-Keeps var "Default")
      | inl unset ↦ rw (missing, unset) (seed_words-Keeps default_words)
    ]
  ]

  pub seed_default_target-Keeps :
      (flag var : String) → Keeps IsConsistent (seed_default_target env flag var)
  unfolding seed_default_target
  seed_default_target-Keeps flag var =
      bind-Keeps IsConsistent _ _ (list_targets-Keeps env IsConsistent at_call-IsConsistent)
        (seed_empty-Keeps flag var)

err_ne_ok : (e : String) → ◌≢◌ {A = Outcome String (Unit {0})} (err e) (ok tt)
err_ne_ok e wrong = cc

-- The hub of a process whose Run returned no error, against the one of the server after these happenings.
pub record IsShut (env : Env) (getenv : String → String) (flags : Outcome String Settings)
    (hs : List Happening) (hub : Hub) : Type 0 where
  pub settings : Settings
  pub parsed : flags ≡ ok settings
  pub store : Store
  pub closed : hub.closed ≡ true
  pub emptied : hub.clients ≡ []
  pub ends :
      (ch : ℕ)
      → registered ch
          (happen_all env
            (with_env getenv settings).config
            hs
            (record new_server { store = store })).hub.clients
        ≡ true
      → (hub.chans ch).closed ≡ true

-- How Run may leave its process, after these happenings.
pub record IsStopped (env : Env) (getenv : String → String) (flags : Outcome String Settings)
    (hs : List Happening) (r : Stopped) : Type 0 where
  pub consistent : IsConsistent r.database.store
  pub closes : r.database.closed ≡ r.database.opened
  pub hub : Hub
  pub survives : r.hub ≡ some hub
  pub sound : IsSound hub
  pub ends : r.result ≡ ok tt → IsShut env getenv flags hs hub

module _ (env : Env) (sorts : Sorts env) (getenv : String → String) where
  early :
      (flags : Outcome String Settings) (hs : List Happening) (e : String) (db : Database)
      → IsConsistent db.store
      → db.closed ≡ db.opened
      → IsStopped env getenv flags hs (record { result = err e; database = db; hub = some new_hub })
  early flags hs e db h closes = record {
    consistent = h;
    closes = closes;
    hub = new_hub;
    survives = refl;
    sound = new_hub-IsSound;
    ends = λ fine. absurd (err_ne_ok e fine);
  }

  -- the server when the `select` of Run ends
  abbrev served : Settings → List Happening → Store → Server
  served settings hs store =
      happen_all env (with_env getenv settings).config hs (record new_server { store = store })

  served-IsSound :
      (settings : Settings) (hs : List Happening) (store : Store)
      → IsSound (served settings hs store).hub
  served-IsSound settings hs store =
      happen_all-IsSound env (with_env getenv settings).config hs _ new_hub-IsSound

  stop-IsStopped :
      (settings : Settings) (hs : List Happening) (ending : Ending) (db : Database) (store : Store)
      → db.opened ≡ true
      → IsConsistent store
      → IsStopped env getenv (ok settings) hs (stop ending db (served settings hs store))
  stop-IsStopped settings hs (listener_failed e) db store opened h = record {
    consistent =
        happen_all-IsConsistent env (with_env getenv settings).config hs
          (record new_server { store = store }) sorts h;
    closes = sym opened;
    hub = (served settings hs store).hub;
    survives = refl;
    sound = served-IsSound settings hs store;
    ends = λ fine. absurd (err_ne_ok _ fine);
  }
  stop-IsStopped settings hs interrupted db store opened h =
      let (hub, done, sound, closed, clients, _, shut) =
        close_lem (served settings hs store).hub (served-IsSound settings hs store) in
      record {
        consistent =
            happen_all-IsConsistent env (with_env getenv settings).config hs
              (record new_server { store = store }) sorts h;
        closes = sym opened;
        hub = hub;
        survives = done;
        sound = sound;
        ends = λ fine. record {
          settings = settings;
          parsed = refl;
          store = store;
          closed = closed;
          emptied = clients;
          ends = λ ch r. ground (arith, shut ch, r);
        };
      }

  seeded_run-IsStopped :
      (settings : Settings) (hs : List Happening) (ending : Ending) (db : Database)
      (r : Outcome String (Unit {0}) × Store)
      → db.opened ≡ true
      → IsConsistent r.1
      → IsStopped env getenv
          (ok settings)
          hs
          (seeded_run env getenv (with_env getenv settings) hs ending db r)
  seeded_run-IsStopped settings hs ending db (err e, store) opened h =
      early (ok settings) hs e (close_db (record db { store = store })) h (sym opened)
  seeded_run-IsStopped settings hs ending db (ok u, store) opened h =
      stop-IsStopped settings hs ending db store opened h

  -- However Run ends, on a file with unique IDs in each table and no match of a target that is not
  -- stored, after any sequence of requests, reaper ticks, event streams that open, and turns of
  -- their loops: the file is left such and closed if it was opened, Close of the hub has not
  -- panicked, and the hub is sound; if Run returns no error, the hub is closed, no channel is
  -- registered, and every channel that was registered when the context was done is closed. ORDER BY
  -- is taken to only rearrange the rows.
  pub run_server-IsStopped :
      (flags : Outcome String Settings) (hs : List Happening) (ending : Ending) (tables : Store)
      → IsConsistent tables
      → IsStopped env getenv flags hs (run_server env getenv flags hs ending tables)
  unfolding run_server
  run_server-IsStopped (err e) hs ending tables h = early (err e) hs e (unopened tables) h refl
  run_server-IsStopped (ok flags) hs ending tables h =
      let settings = with_env getenv flags in
      elim (new_store_cases env settings.db_path tables) [
        | Opened.failed e db n out closed same ↦
            rw out (early (ok flags) hs _ db (rw same (at_call-IsConsistent tables n h)) closed)
        | Opened.ready n out ↦ rw out (
            seeded_run-IsStopped flags hs ending _ _ refl (
              seed_default_target-Keeps env settings.default_target (getenv "VKG_TARGET") _
                (at_call-IsConsistent tables n h)))
      ]
