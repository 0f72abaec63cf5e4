-- ===== src/Server/Stream/Steps.antt =====
-- pkg/server/sse.go: what a turn of a stream, and what others do, changes of the stream's channel.
use vanitykeygen.Common.{
  ℕ, ◌<◌, String, true, not, ◌&&◌, none, some, List, [], ◌∷◌, ◌++◌, ltb, if◌then◌else◌, length, ◌≡◌,
  refl, ap, ◌∙◌, arith, Bool-cases, Option-cases, inl, inr,
}
use vanitykeygen.Runtime.{Env, Payload}
use vanitykeygen.Hub.{Hub, capacity, Subscription, subscribe, unsubscribe, close, message}
use vanitykeygen.Hub.Safety.{registered, IsSound, close_lem, close-next}
use vanitykeygen.Hub.Delivery.{broadcast_lem, sent, IsBroadcast}
use vanitykeygen.Hub.Reach.{subscribe-IsSound, unsubscribe-IsSound}
use vanitykeygen.Server.Stream.{Operation, perform}

-- the messages that an operation puts into a channel
abbrev pub accepted : Env → Operation → ℕ → Hub → List String
accepted env (Operation.broadcasts event_type payload) ch h = elim (env.marshal payload) [
  | none ↦ []
  | some b ↦
      if not h.closed && (registered ch h.clients && ltb (length (h.chans ch).buffer) capacity)
      then message event_type b ∷ []
      else []
]
accepted env Operation.subscribes ch h = []
accepted env Operation.closes ch h = []
accepted env (Operation.unsubscribes sub) ch h = []

-- what an operation changes of a channel
pub record IsPerformed (env : Env) (op : Operation) (ch : ℕ) (h h' : Hub) : Type 0 where
  pub sound : IsSound h'
  pub made : ch < h'.next
  pub buffer : (h'.chans ch).buffer ≡ (h.chans ch).buffer ++ accepted env op ch h
  pub shut : (h.chans ch).closed ≡ true → (h'.chans ch).closed ≡ true

concat_nil : (xs : List String) → xs ≡ xs ++ []
concat_nil [] = refl
concat_nil (x ∷ xs) = ap (λ r. x ∷ r) (concat_nil xs)

perform-broadcast :
    (env : Env) (event_type : String) (payload : Payload) (ch : ℕ) (h h' : Hub)
    → ch < h.next
    → IsSound h'
    → IsBroadcast h h' (sent env event_type payload)
    → IsPerformed env (Operation.broadcasts event_type payload) ch h h'
perform-broadcast env event_type payload ch h h' made sound is = record {
  sound = sound;
  made = rw is.next made;
  buffer = elim (Option-cases (env.marshal payload)) [
    | inl bad ↦ ground (arith, is.buffers ch, bad, concat_nil (h.chans ch).buffer)
    | inr (b, good) ↦ ground (arith, is.buffers ch, good, concat_nil (h.chans ch).buffer)
  ];
  shut = λ e. is.closes ch ∙ e;
}

perform-subscribe :
    (env : Env) (ch : ℕ) (h : Hub)
    → ch < h.next
    → IsSound h
    → IsPerformed env Operation.subscribes ch h (subscribe h).1
unfolding subscribe
perform-subscribe env ch h made sound = elim (Bool-cases h.closed) [
  | inl shut ↦ record {
    sound = subscribe-IsSound h sound;
    made = ground (arith, shut);
    buffer = ground (arith, shut, concat_nil (h.chans ch).buffer);
    shut = λ e. ground (arith, shut);
  }
  | inr running ↦ record {
    sound = subscribe-IsSound h sound;
    made = ground (arith, running);
    buffer = ground (arith, running, concat_nil (h.chans ch).buffer);
    shut = λ e. ground (arith, running);
  }
]

perform-close :
    (env : Env) (ch : ℕ) (h : Hub)
    → ch < h.next
    → IsSound h
    → (h' : Hub) × (close h ≡ some h') × IsPerformed env Operation.closes ch h h'
perform-close env ch h made sound =
    let (h', done, sound', _, _, buffers, closes) = close_lem h sound in
    (
      h',
      done,
      record {
        sound = sound';
        made = rw (close-next h h' sound done) made;
        buffer = buffers ch ∙ concat_nil (h.chans ch).buffer;
        shut = λ e. ground (arith, closes ch);
      },
    )

perform-unsubscribe :
    (env : Env) (sub : Subscription) (ch : ℕ) (h : Hub)
    → ch < h.next
    → IsSound h
    → IsPerformed env (Operation.unsubscribes sub) ch h (unsubscribe sub h)
unfolding unsubscribe
perform-unsubscribe env sub ch h made sound = record {
  sound = unsubscribe-IsSound sub h sound;
  made = ground arith;
  buffer = ground (arith, concat_nil (h.chans ch).buffer);
  shut = λ e. ground arith;
}

pub perform_lem :
    (env : Env) (op : Operation) (ch : ℕ) (h : Hub)
    → ch < h.next
    → IsSound h
    → (h' : Hub) × (perform env op h ≡ some h') × IsPerformed env op ch h h'
unfolding perform
perform_lem env (Operation.broadcasts event_type payload) ch h made sound =
    let (h', done, sound', is) = broadcast_lem env event_type payload h sound in
    (h', done, perform-broadcast env event_type payload ch h h' made sound' is)
perform_lem env Operation.subscribes ch h made sound =
    (_, refl, perform-subscribe env ch h made sound)
perform_lem env Operation.closes ch h made sound = perform-close env ch h made sound
perform_lem env (Operation.unsubscribes sub) ch h made sound =
    (_, refl, perform-unsubscribe env sub ch h made sound)
