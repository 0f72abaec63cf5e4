-- ===== src/Server/Stream/Turns.antt =====
-- pkg/server/sse.go: what a turn of the loop of handleSSE changes.
use vanitykeygen.Common.{
  ℕ, ◌≤◌, ◌<◌, String, Bool, true, false, List, [], ◌∷◌, ◌++◌, if◌then◌else◌, length, ◌≡◌, refl,
  sym, ap, subst, arith, Bool-cases, List-cases, inl, inr,
}
use vanitykeygen.Hub.{Hub, set_chan, unsubscribe, receive, Received, message_of, waiting, end}
use vanitykeygen.Hub.Safety.{IsSound}
use vanitykeygen.Hub.Reach.{unsubscribe-IsSound, receive-IsSound}
use vanitykeygen.Server.Stream.{Piece, Stream, returns, write, Turn, turn, receiving}

-- the messages among what was written
abbrev pub messages : List Piece → List String
messages [] = []
messages (Piece.connected ∷ pieces) = messages pieces
messages (Piece.keepalive ∷ pieces) = messages pieces
messages (Piece.event msg ∷ pieces) = msg ∷ messages pieces

abbrev pub is_receive : Turn → Bool
is_receive (Turn.receives writes) = true
is_receive Turn.done = false
is_receive (Turn.keep_alive writes) = false

-- what was written of messages, and then what waits in the channel
abbrev pub passed : Stream → Hub → List String
passed st h = messages st.written ++ (h.chans st.subscription.chan).buffer

abbrev pub waits : Stream → Hub → ℕ
waits st h = length (h.chans st.subscription.chan).buffer

-- What a turn of a stream that has not returned does.
pub record IsTurned (t : Turn) (st : Stream) (h : Hub) (out : Stream × Hub) : Type 0 where
  pub sound : IsSound out.1
  pub next : out.1.next ≡ h.next
  pub same : out.0.subscription ≡ st.subscription
  pub shut : (ch : ℕ) → (out.1.chans ch).closed ≡ (h.chans ch).closed
  pub conserves : out.0.running ≡ true → passed out.0 out.1 ≡ passed st h
  pub shrinks : waits out.0 out.1 ≤ waits st h
  pub receives :
      is_receive t ≡ true
      → (h.chans st.subscription.chan).closed ≡ true
      → out.0.running ≡ true
      → waits out.0 out.1 < waits st h

messages-event :
    (pieces : List Piece) (msg : String) (rest : List String)
    → messages (pieces ++ Piece.event msg ∷ []) ++ rest ≡ messages pieces ++ msg ∷ rest
messages-event [] msg rest = refl
messages-event (Piece.connected ∷ pieces) msg rest = messages-event pieces msg rest
messages-event (Piece.keepalive ∷ pieces) msg rest = messages-event pieces msg rest
messages-event (Piece.event m ∷ pieces) msg rest = ap (λ r. m ∷ r) (messages-event pieces msg rest)

messages-keepalive :
    (pieces : List Piece) → messages (pieces ++ Piece.keepalive ∷ []) ≡ messages pieces
messages-keepalive [] = refl
messages-keepalive (Piece.connected ∷ pieces) = messages-keepalive pieces
messages-keepalive (Piece.keepalive ∷ pieces) = messages-keepalive pieces
messages-keepalive (Piece.event m ∷ pieces) = ap (λ r. m ∷ r) (messages-keepalive pieces)

returns-IsTurned :
    (t : Turn) (st : Stream) (h h' : Hub)
    → IsSound h'
    → h'.next ≡ h.next
    → ((ch : ℕ) → (h'.chans ch).closed ≡ (h.chans ch).closed)
    → waits st h' ≤ waits st h
    → IsTurned t st h (returns st h')
unfolding unsubscribe
returns-IsTurned t st h h' sound next shut fewer = record {
  sound = unsubscribe-IsSound st.subscription h' sound;
  next = ground (arith, next);
  same = refl;
  shut = λ ch. ground (arith, shut ch);
  conserves = λ running. absurd (ground arith);
  shrinks = ground (arith, fewer);
  receives = λ r e running. absurd (ground arith);
}

keep_alive-IsTurned :
    (writes : Bool) (st : Stream) (h : Hub)
    → IsSound h
    → IsTurned (Turn.keep_alive writes) st h (turn (Turn.keep_alive writes) st h)
unfolding turn
keep_alive-IsTurned false st h sound =
    returns-IsTurned (Turn.keep_alive false) st h h sound refl (λ ch. refl) (omega arith)
keep_alive-IsTurned true st h sound = record {
  sound = sound;
  next = refl;
  same = refl;
  shut = λ ch. refl;
  conserves = λ running.
      ap (λ l. l ++ (h.chans st.subscription.chan).buffer) (messages-keepalive st.written);
  shrinks = omega arith;
  receives = λ r e running. absurd (ground arith);
}

-- the hub after a message was taken from a channel
abbrev taken : ℕ → List String → Hub → Hub
taken ch rest h = record h { chans = set_chan ch (record (h.chans ch) { buffer = rest }) h.chans }

message-IsTurned :
    (writes : Bool) (st : Stream) (h : Hub) (msg : String) (rest : List String)
    → (h.chans st.subscription.chan).buffer ≡ msg ∷ rest
    → IsSound (taken st.subscription.chan rest h)
    → IsTurned
        (Turn.receives writes)
        st
        h
        (write writes (Piece.event msg) st (taken st.subscription.chan rest h))
message-IsTurned false st h msg rest found sound =
    returns-IsTurned (Turn.receives false) st h (taken st.subscription.chan rest h) sound refl
      (λ ch. ground arith) (ground (arith, found))
message-IsTurned true st h msg rest found sound = record {
  sound = sound;
  next = refl;
  same = refl;
  shut = λ ch. ground arith;
  conserves = λ running. ground (arith, found, messages-event st.written msg rest);
  shrinks = ground (arith, found);
  receives = λ r e running. ground (arith, found);
}

receive_message :
    (ch : ℕ) (h : Hub) (msg : String) (rest : List String)
    → (h.chans ch).buffer ≡ msg ∷ rest
    → receive ch h ≡ (message_of msg, taken ch rest h)
unfolding receive
receive_message ch h msg rest found = rw (receive, found) refl

receive_nothing :
    (ch : ℕ) (h : Hub)
    → (h.chans ch).buffer ≡ []
    → receive ch h ≡ (if (h.chans ch).closed then end else waiting, h)
unfolding receive
receive_nothing ch h nothing = rw (receive, nothing) refl

idle-IsTurned :
    (writes : Bool) (st : Stream) (h : Hub)
    → IsSound h
    → (h.chans st.subscription.chan).closed ≡ false
    → IsTurned (Turn.receives writes) st h (st, h)
idle-IsTurned writes st h sound quiet = record {
  sound = sound;
  next = refl;
  same = refl;
  shut = λ ch. refl;
  conserves = λ running. refl;
  shrinks = omega arith;
  receives = λ r e running. absurd (ground (arith, quiet));
}

receives-IsTurned :
    (writes : Bool) (st : Stream) (h : Hub)
    → IsSound h
    → IsTurned (Turn.receives writes) st h (turn (Turn.receives writes) st h)
unfolding turn
receives-IsTurned writes st h sound =
    let ch = st.subscription.chan in
    let found =
      λ (r : Received × Hub). IsTurned (Turn.receives writes) st h (receiving writes r st) in
    elim (List-cases (h.chans ch).buffer) [
      | inr (msg, rest, full) ↦
          let took = receive_message ch h msg rest full in
          subst found (sym took) (
            message-IsTurned writes st h msg rest full
              (subst IsSound (ap (λ r. r.1) took) (receive-IsSound ch h sound)))
      | inl nothing ↦
          subst found (sym (receive_nothing ch h nothing)) (elim (Bool-cases (h.chans ch).closed) [
            | inl shut ↦ rw shut (
                returns-IsTurned (Turn.receives writes) st h h sound refl (λ ch. refl)
                  (omega arith))
            | inr quiet ↦ rw quiet (idle-IsTurned writes st h sound quiet)
          ])
    ]

pub turn-IsTurned : (t : Turn) (st : Stream) (h : Hub) → IsSound h → IsTurned t st h (turn t st h)
unfolding turn
turn-IsTurned Turn.done st h sound =
    returns-IsTurned Turn.done st h h sound refl (λ ch. refl) (omega arith)
turn-IsTurned (Turn.keep_alive writes) st h sound = keep_alive-IsTurned writes st h sound
turn-IsTurned (Turn.receives writes) st h sound = receives-IsTurned writes st h sound
