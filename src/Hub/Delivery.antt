-- ===== src/Hub/Delivery.antt =====
-- Broadcast, and what it puts into the channels of the subscribers.
use vanitykeygen.Common.{
  ℕ, ◌≤◌, String, ◌&&◌, Option, none, some, List, [], ◌∷◌, ◌++◌, ltb, if◌then◌else◌, length,
  length-append, ◌≡◌, refl, sym, ap, ◌∙◌, arith, Bool-cases, Option-cases, inl, inr, not,
}
use vanitykeygen.Runtime.{Env, Payload}
use vanitykeygen.Hub.{Hub, capacity, message, broadcast}
use vanitykeygen.Hub.Safety.{registered, IsSound, offer_each_lem}

-- what a Broadcast of this payload sends
abbrev pub sent : Env → String → Payload → Option String
sent env event_type payload = elim (env.marshal payload) [
  | none ↦ none
  | some b ↦ some (message event_type b)
]

-- the buffer of a channel after a message was offered to the hub
abbrev pub delivered : Hub → Option String → ℕ → List String
delivered h none ch = (h.chans ch).buffer
delivered h (some msg) ch =
    if not h.closed && (registered ch h.clients && ltb (length (h.chans ch).buffer) capacity)
    then (h.chans ch).buffer ++ msg ∷ []
    else (h.chans ch).buffer

-- The hub after a Broadcast: it differs in the buffers alone.
pub record IsBroadcast (h h' : Hub) (msg : Option String) : Type 0 where
  pub buffers : (ch : ℕ) → (h'.chans ch).buffer ≡ delivered h msg ch
  pub closes : (ch : ℕ) → (h'.chans ch).closed ≡ (h.chans ch).closed
  pub clients : h'.clients ≡ h.clients
  pub closed : h'.closed ≡ h.closed
  pub next : h'.next ≡ h.next

bounded-delivered :
    (h : Hub) (msg : Option String) (ch : ℕ)
    → length (h.chans ch).buffer ≤ capacity
    → length (delivered h msg ch) ≤ capacity
bounded-delivered h none ch b = b
bounded-delivered h (some msg) ch b = ground (arith, length-append (h.chans ch).buffer (msg ∷ []))

IsBroadcast-IsSound :
    {h h' : Hub} {msg : Option String} → IsSound h → IsBroadcast h h' msg → IsSound h'
IsBroadcast-IsSound {h} {h'} {msg} s b = record {
  live = λ ch r. b.closes ch ∙ s.live ch (ap (registered ch) (sym b.clients) ∙ r);
  made = λ ch r. rw b.next (s.made ch (ap (registered ch) (sym b.clients) ∙ r));
  distinct = rw b.clients s.distinct;
  bounded = λ ch. rw (b.buffers ch) (bounded-delivered h msg ch (s.bounded ch));
  ended = λ e. b.clients ∙ s.ended (sym b.closed ∙ e);
}

unchanged :
    (h : Hub) (msg : Option String)
    → ((ch : ℕ) → (h.chans ch).buffer ≡ delivered h msg ch)
    → IsBroadcast h h msg
unchanged h msg same = record {
  buffers = same;
  closes = λ ch. refl;
  clients = refl;
  closed = refl;
  next = refl;
}

-- From every sound hub Broadcast succeeds: each registered channel with room has the message at the
-- end of its buffer, a full one drops it, the others and a closed hub are as they were, and the hub
-- is sound.
pub broadcast_lem :
    (env : Env) (event_type : String) (payload : Payload) (h : Hub)
    → IsSound h
    → (h' : Hub) × (broadcast env event_type payload h ≡ some h')
      × IsSound h'
      × IsBroadcast h h' (sent env event_type payload)
unfolding broadcast
broadcast_lem env event_type payload h s = elim (Option-cases (env.marshal payload)) [
  | inl bad ↦ (h, rw (bad, broadcast), s, rw (bad, sent) (unchanged h none (λ ch. refl)))
  | inr (b, good) ↦ elim (Bool-cases h.closed) [
    | inl shut ↦ (
      h,
      ground (arith, good, shut),
      s,
      rw (good, sent) (unchanged h (some (message event_type b)) (λ ch. ground (arith, shut))),
    )
    | inr running ↦
        let msg = message event_type b in
        let (h', done, buffers, closes, clients, shut, next) =
          offer_each_lem msg h.clients h s.distinct s.live in
        let all : IsBroadcast h h' (some msg) = record {
          buffers = λ ch. ground (arith, buffers ch, running);
          closes = closes;
          clients = clients;
          closed = shut;
          next = next;
        } in
        (h', ground (arith, good, running, done), IsBroadcast-IsSound s all, rw (good, sent) all)
  ]
]
