-- ===== src/Server/Stream.antt =====
-- pkg/server/sse.go: handleSSE, the stream of events to one browser, and what else happens to the hub
-- while it runs. Flush and the headers are not modelled; a write that fails is an argument.
pub mod Steps
pub mod Turns
pub mod Ends
pub mod Order
use vanitykeygen.Common.{
  Bool, true, false, String, Option, none, some, List, [], ◌∷◌, ◌++◌, if◌then◌else◌,
}
use vanitykeygen.Hub.{
  Hub, Subscription, subscribe, unsubscribe, close, broadcast, receive, Received, message_of,
  waiting, end,
}
use vanitykeygen.Hub
use vanitykeygen.Runtime.{Env, Payload}
use vanitykeygen.Server.{Reply, write_error}

-- What one write to the response holds.
pub data Piece : Type 0 where
  connected keepalive : Piece
  event : String → Piece

unfoldable pub bytes : Piece → String
bytes connected = ": connected\n\n"
bytes keepalive = ": keepalive\n\n"
bytes (event msg) = msg

-- The state of the loop: the channel and its unsubscribe function, what was written, and whether the
-- handler has not returned.
pub record Stream : Type 0 where
  pub subscription : Subscription
  pub written : List Piece
  pub running : Bool

-- How handleSSE gets to its loop, or does not.
pub data Connection : Type 0 where
  refused : Reply → Connection
  dropped : Connection
  streaming : Stream → Connection

-- The response is a Flusher or not, and the first write succeeds or not.
unfoldable pub connect : Bool → Bool → Hub → Connection × Hub
connect flushes writes h =
    if flushes
    then (if writes
        then (
          streaming
              (record { subscription = (subscribe h).0; written = connected ∷ []; running = true }),
          (subscribe h).1,
        )
        else (dropped, h))
    else (refused (write_error 500 "streaming not supported"), h)

-- `return`, with the deferred unsubscribe
abbrev pub returns : Stream → Hub → Stream × Hub
returns st h = (record st { running = false }, unsubscribe st.subscription h)

-- a write of the loop, with `if err != nil { return }`
abbrev pub write : Bool → Piece → Stream → Hub → Stream × Hub
write true piece st h = (record st { written = st.written ++ piece ∷ [] }, h)
write false piece st h = returns st h

-- Which case of the `select` is taken, and whether its write succeeds.
pub data Turn : Type 0 where
  done : Turn
  receives : Bool → Turn
  keep_alive : Bool → Turn

-- The case of a channel that is open and empty is not taken.
abbrev pub receiving : Bool → Received × Hub → Stream → Stream × Hub
receiving writes (message_of msg, h) st = write writes (event msg) st h
receiving writes (waiting, h) st = (st, h)
receiving writes (end, h) st = returns st h

unfoldable pub turn : Turn → Stream → Hub → Stream × Hub
turn done st h = returns st h
turn (receives writes) st h = receiving writes (receive st.subscription.chan h) st
turn (keep_alive writes) st h = write writes keepalive st h

-- What other goroutines do with the hub; a receive of another stream is from that one's channel.
pub data Operation : Type 0 where
  broadcasts : String → Payload → Operation
  subscribes closes : Operation
  unsubscribes : Subscription → Operation

unfoldable pub perform : Env → Operation → Hub → Option Hub
perform env (broadcasts event_type payload) h = broadcast env event_type payload h
perform env subscribes h = some (subscribe h).1
perform env closes h = close h
perform env (unsubscribes sub) h = some (unsubscribe sub h)

-- The loop and the other goroutines, in the order of the hub's mutex.
pub data Moment : Type 0 where
  own : Turn → Moment
  other : Operation → Moment

-- a turn, of a handler that has not returned
abbrev pub turn_if : Bool → Turn → Stream → Hub → Stream × Hub
turn_if true t st h = turn t st h
turn_if false t st h = (st, h)

abbrev pub moment : Env → Moment → Stream → Hub → Option (Stream × Hub)
moment env (own t) st h = some (turn_if st.running t st h)
moment env (other op) st h = elim (perform env op h) [ none ↦ none | some h' ↦ some (st, h') ]

-- `none` is a panic
unfoldable pub run_stream : Env → List Moment → Stream → Hub → Option (Stream × Hub)
unfolding turn perform
run_stream env [] st h = some (st, h)
run_stream env (m ∷ ms) st h = elim (moment env m st h) [
  | none ↦ none
  | some (st', h') ↦ run_stream env ms st' h'
]
