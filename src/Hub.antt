-- ===== src/Hub.antt =====
-- pkg/server/sse.go: the hub of the event streams.
-- A channel is a number; `chans` holds what every channel made so far buffers and whether it is closed.
-- `none` is the panic of a send on a closed channel or of closing one again.
pub mod Safety
pub mod Delivery
pub mod Reach
use vanitykeygen.Common.{
  ℕ, suc, String, Bool, true, false, not, Option, none, some, List, [], ◌∷◌, ◌++◌, eqb, ltb,
  if◌then◌else◌, filter, length,
}
use vanitykeygen.Runtime.{Env, Payload}
use vanitykeygen.Text.{append}

pub record Chan : Type 0 where
  pub buffer : List String
  pub closed : Bool

pub record Hub : Type 0 where
  pub clients : List ℕ
  pub closed : Bool
  pub chans : ℕ → Chan
  pub next : ℕ

-- the capacity of `make(chan []byte, 64)`
abbrev pub capacity : ℕ
capacity = 64

abbrev pub empty_chan : Chan
empty_chan = record { buffer = []; closed = false }

-- NewHub
abbrev pub new_hub : Hub
new_hub = record { clients = []; closed = false; chans = λ ch. empty_chan; next = 0 }

abbrev pub set_chan : ℕ → Chan → (ℕ → Chan) → ℕ → Chan
set_chan ch c chans j = if eqb j ch then c else chans j

-- close(ch)
unfoldable pub close_chan : ℕ → Hub → Option Hub
close_chan ch h =
    if (h.chans ch).closed
    then none
    else some (record h { chans = set_chan ch (record (h.chans ch) { closed = true }) h.chans })

-- delete(h.clients, ch)
abbrev pub remove : ℕ → List ℕ → List ℕ
remove ch clients = filter (λ j. not (eqb j ch)) clients

-- What Subscribe returns: the channel, and whether its unsubscribe function deletes it.
pub record Subscription : Type 0 where
  pub chan : ℕ
  pub registered : Bool

-- Subscribe
unfoldable pub subscribe : Hub → Subscription × Hub
subscribe h =
    let made = record h { chans = set_chan h.next empty_chan h.chans; next = suc h.next } in
    if h.closed
    then (
      record { chan = h.next; registered = false },
      record made { chans = set_chan h.next (record empty_chan { closed = true }) h.chans },
    )
    else (record { chan = h.next; registered = true }, record made { clients = h.next ∷ h.clients })

-- the function that Subscribe returns
unfoldable pub unsubscribe : Subscription → Hub → Hub
unsubscribe sub h = if sub.registered then record h { clients = remove sub.chan h.clients } else h

-- the loop of Close
unfoldable pub close_each : List ℕ → Hub → Option Hub
close_each [] h = some h
close_each (ch ∷ rest) h = elim (close_chan ch h) [
  | none ↦ none
  | some h' ↦ close_each rest (record h' { clients = remove ch h'.clients })
]

-- Close
unfoldable pub close : Hub → Option Hub
close h = close_each h.clients (record h { closed = true })

-- the `select` of Broadcast: send if there is room, else drop
unfoldable pub offer : String → ℕ → Hub → Option Hub
offer msg ch h =
    if (h.chans ch).closed
    then none
    else some (
        if ltb (length (h.chans ch).buffer) capacity
        then record h {
          chans =
              set_chan ch (record (h.chans ch) { buffer = (h.chans ch).buffer ++ msg ∷ [] })
                h.chans;
        }
        else h)

-- the loop of Broadcast
unfoldable pub offer_each : String → List ℕ → Hub → Option Hub
offer_each msg [] h = some h
offer_each msg (ch ∷ rest) h = elim (offer msg ch h) [
  | none ↦ none
  | some h' ↦ offer_each msg rest h'
]

-- "event: %s\ndata: %s\n\n"
unfoldable pub message : String → String → String
message event_type b = append "event: " (append event_type (append "\ndata: " (append b "\n\n")))

-- Broadcast
unfoldable pub broadcast : Env → String → Payload → Hub → Option Hub
broadcast env event_type payload h = elim (env.marshal payload) [
  | none ↦ some h
  | some b ↦ if h.closed then some h else offer_each (message event_type b) h.clients h
]

-- What a receive from a channel finds: a message, nothing yet, or the end of a closed channel.
pub data Received : Type 0 where
  message_of : String → Received
  waiting end : Received

-- `msg, ok := <-ch`
unfoldable pub receive : ℕ → Hub → Received × Hub
receive ch h = elim (h.chans ch).buffer [
  | [] ↦ (if (h.chans ch).closed then end else waiting, h)
  | msg ∷ rest ↦ (
    message_of msg,
    record h { chans = set_chan ch (record (h.chans ch) { buffer = rest }) h.chans },
  )
]
