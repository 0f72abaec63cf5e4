-- ===== src/Server/Requests/Hubs.antt =====
-- pkg/server: the hub stays sound through requests, event streams and reaper ticks.
use vanitykeygen.Common.{true, false, Bool, List, [], ◌∷◌}
use vanitykeygen.Runtime.{Env}
use vanitykeygen.Hub.{Hub, receive, Received, message_of, waiting, end}
use vanitykeygen.Hub.Safety.{IsSound}
use vanitykeygen.Hub.Reach.{subscribe-IsSound, unsubscribe-IsSound, receive-IsSound}
use vanitykeygen.Server.{Server, serve}
use vanitykeygen.Server.Compile.{Config}
use vanitykeygen.Server.Stream.{
  Stream, Piece, Turn, turn, connect, done, receives, keep_alive, write, receiving,
}
use vanitykeygen.Server.Requests.{
  Happening, request, stream_opens, stream_turns, reaper_tick, happen_all, happen, route,
}
use vanitykeygen.Server.Requests.Replies.{serve-replies}

connect-IsSound :
    (flushes writes : Bool) (h : Hub) → IsSound h → IsSound (connect flushes writes h).1
unfolding connect
connect-IsSound true true h sound = subscribe-IsSound h sound
connect-IsSound true false h sound = sound
connect-IsSound false writes h sound = sound

write-IsSound :
    (writes : Bool) (piece : Piece) (st : Stream) (h : Hub)
    → IsSound h
    → IsSound (write writes piece st h).1
write-IsSound true piece st h sound = sound
write-IsSound false piece st h sound = unsubscribe-IsSound st.subscription h sound

receiving-IsSound :
    (writes : Bool) (r : Received) (h : Hub) (st : Stream)
    → IsSound h
    → IsSound (receiving writes (r, h) st).1
receiving-IsSound writes (message_of msg) h st sound =
    write-IsSound writes (Piece.event msg) st h sound
receiving-IsSound writes waiting h st sound = sound
receiving-IsSound writes end h st sound = unsubscribe-IsSound st.subscription h sound

turn-IsSound : (t : Turn) (st : Stream) (h : Hub) → IsSound h → IsSound (turn t st h).1
unfolding turn
turn-IsSound done st h sound = unsubscribe-IsSound st.subscription h sound
turn-IsSound (receives writes) st h sound =
    receiving-IsSound writes (receive st.subscription.chan h).0 (receive st.subscription.chan h).1
      st (receive-IsSound st.subscription.chan h sound)
turn-IsSound (keep_alive writes) st h sound = write-IsSound writes Piece.keepalive st h sound

pub happen_all-IsSound :
    (env : Env) (config : Config) (hs : List Happening) (s : Server)
    → IsSound s.hub
    → IsSound (happen_all env config hs s).hub
unfolding happen_all happen
happen_all-IsSound env config [] s h = h
happen_all-IsSound env config (request r ∷ hs) s h =
    happen_all-IsSound env config hs (serve (route env config r) s).1
      (serve-replies env config r s h).0
happen_all-IsSound env config (stream_opens flushes writes ∷ hs) s h =
    happen_all-IsSound env config hs _ (connect-IsSound flushes writes s.hub h)
happen_all-IsSound env config (stream_turns st t ∷ hs) s h =
    happen_all-IsSound env config hs _ (turn-IsSound t st s.hub h)
happen_all-IsSound env config (reaper_tick ∷ hs) s h = happen_all-IsSound env config hs _ h
