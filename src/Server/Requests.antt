-- ===== src/Server/Requests.antt =====
-- pkg/server: the requests that the server answers, in any order, the ticks of its reaper, and the
-- event streams. A handler is one step here, which runs to its end before the next, except handleSSE,
-- of which each turn of the loop is a step.
pub mod Reading
pub mod Kept
pub mod Methods
pub mod Validity
pub mod Integrity
pub mod Failures
pub mod Errors
pub mod Roundtrip
pub mod Answers
pub mod Replies
pub mod Hubs
use vanitykeygen.Common.{String, Bool, Option, List, [], ◌∷◌}
use vanitykeygen.Vkg.{Target, Match, RegisterRequest, Heartbeat}
use vanitykeygen.Runtime.{Env}
use vanitykeygen.Server.{Server, Handler, serve}
use vanitykeygen.Server.Compile.{Config}
use vanitykeygen.Server.TargetRoutes.{
  handle_list_targets, handle_create_target, handle_get_target, handle_get_active_targets,
  handle_update_target, handle_delete_target,
}
use vanitykeygen.Server.MatchRoutes.{handle_list_matches, handle_get_match, handle_post_match}
use vanitykeygen.Server.ClientRoutes.{
  handle_register, handle_heartbeat, handle_list_clients, handle_stats, handle_version,
}
use vanitykeygen.Server.Background.{reap}
use vanitykeygen.Server.Stream.{Stream, Turn, turn, connect}

-- The routes of the API with what a request holds; GET /api/events, whose handler goes on, is `stream_opens`.
pub data Request : Type 0 where
  list_targets get_target : String → Request
  create_target : Option Target → Request
  active_targets stats version : Request
  update_target : String → Option Target → Request
  delete_target : String → Request
  list_matches : String → String → Request
  get_match : String → Request
  post_match : Option Match → Request
  register : Option RegisterRequest → Request
  heartbeat : Option Heartbeat → Request
  list_clients : String → Request

-- the handler that the mux calls
unfoldable pub route : Env → Config → Request → Handler
route env config (list_targets limit) = handle_list_targets env limit
route env config (get_target id) = handle_get_target env id
route env config (create_target body) = handle_create_target env body
route env config active_targets = handle_get_active_targets env config
route env config stats = handle_stats env
route env config version = handle_version config
route env config (update_target id body) = handle_update_target env id body
route env config (delete_target id) = handle_delete_target env id
route env config (list_matches target_id limit) = handle_list_matches env target_id limit
route env config (get_match id) = handle_get_match env id
route env config (post_match body) = handle_post_match env body
route env config (register body) = handle_register env body
route env config (heartbeat body) = handle_heartbeat env body
route env config (list_clients limit) = handle_list_clients env limit

-- What happens to the server: a request; a GET /api/events, with a response that is a Flusher or not
-- and a first write that succeeds or not; a turn of the loop of a stream, which may
-- be any here; or a tick of the reaper.
pub data Happening : Type 0 where
  request : Request → Happening
  stream_opens : Bool → Bool → Happening
  stream_turns : Stream → Turn → Happening
  reaper_tick : Happening

unfoldable pub happen : Env → Config → Happening → Server → Server
happen env config (request r) s = (serve (route env config r) s).1
happen env config (stream_opens flushes writes) s = record s {
  hub = (connect flushes writes s.hub).1;
}
happen env config (stream_turns st t) s = record s { hub = (turn t st s.hub).1 }
happen env config reaper_tick s = record s { store = reap env s.store }

unfoldable pub happen_all : Env → Config → List Happening → Server → Server
unfolding happen
happen_all env config [] s = s
happen_all env config (h ∷ hs) s = happen_all env config hs (happen env config h s)
