-- ===== src/Server/Stream/Ends.antt =====
-- pkg/server/sse.go: the streams while the hub is in use, and once it is closed.
use vanitykeygen.Common.{
  ℕ, ◌<◌, Bool, true, false, Option, some, List, [], ◌∷◌, count, ◌≡◌, refl, sym, subst, ◌∙◌, arith,
  Bool-cases, Option-cases, length-append, inl, inr,
}
use vanitykeygen.Runtime.{Env}
use vanitykeygen.Hub.{Hub, close}
use vanitykeygen.Hub.Safety.{registered, IsSound, close_lem, close-next}
use vanitykeygen.Server.Stream.{Stream, turn, Operation, Moment, run_stream, turn_if, own, other}
use vanitykeygen.Server.Stream.Steps.{accepted, IsPerformed, perform_lem}
use vanitykeygen.Server.Stream.Turns.{is_receive, waits, turn-IsTurned}

abbrev pub takes : Moment → Bool
takes (own t) = is_receive t
takes (other op) = false

-- A stream whose channel is closed: it has returned, or more receives come than messages wait.
pub record IsEnding (ms : List Moment) (st : Stream) (h : Hub) : Type 0 where
  pub sound : IsSound h
  pub made : st.subscription.chan < h.next
  pub shut : (h.chans st.subscription.chan).closed ≡ true
  pub due : st.running ≡ true → waits st h < count takes ms

abbrev pub Returned : Option (Stream × Hub) → Type 0
Returned out =
    (st : Stream) × (h : Hub) × (out ≡ some (st, h))
    × (st.running ≡ false)
    × (registered st.subscription.chan h.clients ≡ false)

unregistered :
    (ch : ℕ) (h : Hub) → IsSound h → (h.chans ch).closed ≡ true → registered ch h.clients ≡ false
unregistered ch h sound shut = elim (Bool-cases (registered ch h.clients)) [
  | inl r ↦ absurd (ground (arith, sound.live ch r))
  | inr n ↦ n
]

accepted_closed :
    (env : Env) (op : Operation) (ch : ℕ) (h : Hub)
    → registered ch h.clients ≡ false
    → accepted env op ch h ≡ []
accepted_closed env (Operation.broadcasts event_type payload) ch h free =
    elim (Option-cases (env.marshal payload)) [
      | inl bad ↦ rw (accepted, bad) refl
      | inr (b, good) ↦ ground (arith, good, free)
    ]
accepted_closed env Operation.subscribes ch h free = refl
accepted_closed env Operation.closes ch h free = refl
accepted_closed env (Operation.unsubscribes sub) ch h free = refl

-- Nothing is put into a closed channel.
waits_closed :
    (env : Env) (op : Operation) (ms : List Moment) (st : Stream) (h : Hub)
    → IsEnding ms st h
    → (h' : Hub) → IsPerformed env op st.subscription.chan h h'
    → waits st h' ≡ waits st h
waits_closed env op ms st h e h' is =
    let none_in =
      accepted_closed env op st.subscription.chan h
        (unregistered st.subscription.chan h e.sound e.shut) in
    ground (arith, is.buffer, none_in, length-append (h.chans st.subscription.chan).buffer [])

pub run_stream_ends :
    (env : Env) (ms : List Moment) (st : Stream) (h : Hub)
    → IsEnding ms st h
    → Returned (run_stream env ms st h)
unfolding run_stream
run_stream_ends env [] st h e = elim (Bool-cases st.running) [
  | inl on ↦ absurd (omega (arith, e.due on))
  | inr off ↦ (st, h, refl, off, unregistered st.subscription.chan h e.sound e.shut)
]
run_stream_ends env (other op ∷ ms) st h e =
    let ch = st.subscription.chan in
    let (h', done, is) = perform_lem env op ch h e.made e.sound in
    rw (run_stream, done)
      (run_stream_ends env ms st h' (record {
        sound = is.sound;
        made = is.made;
        shut = is.shut e.shut;
        due = λ on. ground (arith, e.due on, waits_closed env op (other op ∷ ms) st h e h' is);
      }))
run_stream_ends env (own t ∷ ms) st h e = elim (Bool-cases st.running) [
  | inr off ↦
      subst (λ b. Returned (run_stream env ms (turn_if b t st h).0 (turn_if b t st h).1)) (sym off)
        (run_stream_ends env ms st h (record {
          sound = e.sound;
          made = e.made;
          shut = e.shut;
          due = λ on. absurd (ground (arith, off));
        }))
  | inl on ↦
      let is = turn-IsTurned t st h e.sound in
      let (st', h') = turn t st h in
      subst (λ b. Returned (run_stream env ms (turn_if b t st h).0 (turn_if b t st h).1)) (sym on)
        (run_stream_ends env ms st' h' (record {
          sound = is.sound;
          made = ground (arith, is.next, is.same, e.made);
          shut = rw is.same (is.shut st.subscription.chan ∙ e.shut);
          due = λ on'. elim (Bool-cases (is_receive t)) [
            | inl r ↦ ground (arith, r, e.due on, is.receives r e.shut on')
            | inr other_turn ↦ ground (arith, other_turn, e.due on, is.shrinks)
          ];
        }))
]

-- Once Close has returned on a sound hub, an event stream whose channel was registered returns by
-- the 65th time that the loop takes a receive, with its channel not registered, whatever other
-- cases it takes, whichever writes fail, and whatever others do with the hub meanwhile; nothing
-- panics.
pub stream_returns-close :
    (env : Env) (ms : List Moment) (st : Stream) (h h' : Hub)
    → IsSound h
    → registered st.subscription.chan h.clients ≡ true
    → close h ≡ some h'
    → 64 < count takes ms
    → Returned (run_stream env ms st h')
stream_returns-close env ms st h h' sound mine shut enough =
    let (k, done, sound', _, _, buffers, closes) = close_lem h sound in
    let ch = st.subscription.chan in
    let same : k ≡ h' = ground (arith, done, shut) in
    subst (λ j. Returned (run_stream env ms st j)) same
      (run_stream_ends env ms st k (record {
        sound = sound';
        made = rw (close-next h k sound done) (sound.made ch mine);
        shut = ground (arith, closes ch, mine);
        due = λ on. ground (arith, sound'.bounded ch, enough);
      }))
