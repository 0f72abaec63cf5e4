-- ===== src/Tests/RunTests.antt =====
-- The two Run functions and main at concrete inputs.
use vanitykeygen.Common.{String, true, some, negsuc, List, ◌≡◌, refl, [], ◌∷◌, ◌==◌, if◌then◌else◌}
use vanitykeygen.Runtime.{ok, err}
use vanitykeygen.Store.{empty_store}
use vanitykeygen.Store.Integrity.{empty_store-IsConsistent}
use vanitykeygen.Store.Open.{Opens, new_store, new_store_outcome, unopened}
use vanitykeygen.Server.Requests.{
  Happening, request, stream_opens, stream_turns, reaper_tick, Request,
}
use vanitykeygen.Server.Stream.{Stream, connected, receives}
use vanitykeygen.Server.Run.{run_server, default_settings, interrupted}
use vanitykeygen.Server.Run.Ends.{IsStopped, run_server-IsStopped}
use vanitykeygen.Client.{
  Net, Event, target_tick, key_counted, heartbeat_tick, register, fetch_targets, is_success,
  register_request, stable_id,
}
use vanitykeygen.Client.Run.{
  run_client, with_env, new_client, start, makes_channel, panicked, Settings as ClientSettings,
}
use vanitykeygen.Client.Run.{default_settings as client_settings}
use vanitykeygen.Client.Run.Identity.{Works, run_client-Works}
use vanitykeygen.Command.{Parts, exits, returns, Ends}
use vanitykeygen.Command.Endings.{main-Ends}
use vanitykeygen.Tests.{quiet, hit}
use vanitykeygen.Tests.Sorting.{quiet-Sorts}
use vanitykeygen.Tests.ClientTests.{offline, gt3}

-- a server that names the client and has a pattern for it
abbrev online : Net
online = record offline {
  post_register = λ n r. ok (record { status = 201; decoded = ok (record { client_id = "c7" }) });
  get_patterns = λ n. ok (record { status = 200; decoded = ok (gt3 ∷ []) });
}

-- an environment with a database in memory and a server
abbrev variables : String → String
variables name =
    if name == "VKG_DB_PATH"
    then ":memory:"
    else if name == "VKG_SERVER_URI"
    then "http://localhost"
    else ""

new_store_outcome_example :
    Opens ":memory:" empty_store (new_store quiet ":memory:" (unopened empty_store))
new_store_outcome_example = new_store_outcome quiet ":memory:" empty_store

-- a browser connects, a match is posted, and its stream takes the event
abbrev opened_stream : Stream
opened_stream = record {
  subscription = record { chan = 0; registered = true };
  written = connected ∷ [];
  running = true;
}

abbrev visit : List Happening
visit =
    stream_opens true true
    ∷ request (Request.delete_target "7")
    ∷ stream_opens true true
    ∷ request (Request.post_match (some hit))
    ∷ stream_turns opened_stream (receives true)
    ∷ reaper_tick
    ∷ []

run_server-IsStopped_example :
    IsStopped quiet variables
      (ok default_settings)
      visit
      (run_server quiet variables (ok default_settings) visit interrupted empty_store)
run_server-IsStopped_example =
    run_server-IsStopped quiet quiet-Sorts variables (ok default_settings) visit interrupted
      empty_store empty_store-IsConsistent

abbrev four : ClientSettings
four = client_settings 4

abbrev ticks : List Event
ticks = target_tick ∷ key_counted ∷ heartbeat_tick 1000 ∷ []

run_client-Works_example :
    Works online 1000
      (new_client (with_env variables four) "forge" "dev")
      ticks
      (run_client (λ uri. online) 1000 variables (ok four) "forge" "dev" ticks)
run_client-Works_example = run_client-Works (λ uri. online) 1000 variables four "forge" "dev" ticks

-- a setting of -1
minus_one :
    run_client
      (λ uri. online)
      1000
      variables
      (ok (record { server_uri = "http://localhost"; num_seekers = negsuc 0 }))
      "forge"
      "dev"
      []
    ≡ panicked
unfolding run_client start register fetch_targets is_success makes_channel new_client with_env
    register_request stable_id
minus_one = refl

abbrev parts : Parts
parts = record {
  server_defaults = "";
  client_defaults = "";
  git_version = "dev";
  run_server = λ level args. returns [] (err "open store: open db: disk full");
  run_client = λ level args. exits (record { code = 2; out = []; error = [] });
}

main-Ends_example : Ends parts (ok (true, "server" ∷ []))
main-Ends_example = main-Ends parts (ok (true, "server" ∷ []))
