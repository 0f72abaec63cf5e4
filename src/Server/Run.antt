-- ===== src/Server/Run.antt =====
-- pkg/server/server.go: the settings of the server and Run. What the flag package makes of the arguments,
-- and how the HTTP server ends, are arguments; the log is not modelled.
pub mod Ends
use vanitykeygen.Common.{ℕ, String, Bool, Option, none, some, List, ◌==◌, if◌then◌else◌, ℤ, pos}
use vanitykeygen.Runtime.{Env, Outcome, ok, err}
use vanitykeygen.Text.{append}
use vanitykeygen.Store.{Store}
use vanitykeygen.Store.Open.{Database, unopened, new_store, close_db, failing_with}
use vanitykeygen.Hub.{Hub, close, new_hub}
use vanitykeygen.Server.{Server, new_server}
use vanitykeygen.Server.Compile.{Config, default_config}
use vanitykeygen.Server.Limit.{atoi}
use vanitykeygen.Server.Background.{seed_default_target}
use vanitykeygen.Server.Requests.{Happening, happen_all}

-- The variables that the flags set.
pub record Settings : Type 0 where
  pub listen_port : ℤ
  pub listen_address : String
  pub db_path : String
  pub default_target : String
  pub config : Config

-- the defaults of FlagSet
abbrev pub default_settings : Settings
default_settings = record {
  listen_port = pos 8080;
  listen_address = "0.0.0.0";
  db_path = "vkg.db";
  default_target = "";
  config = default_config;
}

-- `if val := getenv(name); val != "" { x = val }`
abbrev or_env : String → String → String
or_env val x = if val == "" then x else val

abbrev port_or : ℤ → Option ℤ → ℤ
port_or port none = port
port_or port (some p) = p

-- The variables after Run has read the environment.
unfoldable pub with_env : (String → String) → Settings → Settings
with_env getenv s = record s {
  db_path = or_env (getenv "VKG_DB_PATH") s.db_path;
  listen_port =
      if getenv "VKG_LISTEN_PORT" == ""
      then s.listen_port
      else port_or s.listen_port (atoi (getenv "VKG_LISTEN_PORT"));
  listen_address = or_env (getenv "VKG_LISTEN_ADDRESS") s.listen_address;
}

-- How the `select` of Run ends: the listener failed, or the context is done.
pub data Ending : Type 0 where
  listener_failed : String → Ending
  interrupted : Ending

-- What Run leaves: its result, the database, and the hub; `none` is the panic of Close.
pub record Stopped : Type 0 where
  pub result : Outcome String (Unit {0})
  pub database : Database
  pub hub : Option Hub

-- the end of Run, with the deferred st.Close
abbrev pub stop : Ending → Database → Server → Stopped
stop (listener_failed e) db s = record {
  result = err (append "server error: " e);
  database = close_db (record db { store = s.store });
  hub = some s.hub;
}
stop interrupted db s = record {
  result = ok tt;
  database = close_db (record db { store = s.store });
  hub = close s.hub;
}

module _ (env : Env) (getenv : String → String) where
  -- Run once the store is seeded: the requests and the reaper until it ends
  abbrev pub seeded_run :
      Settings → List Happening → Ending → Database → Outcome String (Unit {0}) × Store → Stopped
  seeded_run settings hs ending db (err e, store) = record {
    result = err e;
    database = close_db (record db { store = store });
    hub = some new_hub;
  }
  seeded_run settings hs ending db (ok u, store) =
      stop ending db (happen_all env settings.config hs (record new_server { store = store }))

  -- Run once New has returned
  abbrev pub opened_run :
      Settings → List Happening → Ending → Outcome String (Unit {0}) × Database → Stopped
  opened_run settings hs ending (err e, db) = record {
    result = err e;
    database = db;
    hub = some new_hub;
  }
  opened_run settings hs ending (ok u, db) =
      seeded_run settings hs ending db
        (seed_default_target env settings.default_target (getenv "VKG_TARGET") db.store)

  -- Run, on a file with these tables
  unfoldable pub run_server : Outcome String Settings → List Happening → Ending → Store → Stopped
  run_server (err e) hs ending tables = record {
    result = err e;
    database = unopened tables;
    hub = some new_hub;
  }
  run_server (ok flags) hs ending tables =
      let settings = with_env getenv flags in
      opened_run settings hs ending
        (failing_with "open store" (new_store env settings.db_path (unopened tables)))
