-- ===== src/Server/Stream/Order.antt =====
-- pkg/server/sse.go: a stream passes on every message that its channel had room for, once and in order.
use vanitykeygen.Common.{
  ◌<◌, String, Bool, true, none, some, List, [], ◌∷◌, ◌++◌, ◌≡◌, refl, sym, ap, subst, ◌∙◌, arith,
  Bool-cases, inl, inr,
}
use vanitykeygen.Runtime.{Env}
use vanitykeygen.Hub.{Hub, subscribe}
use vanitykeygen.Hub.Safety.{IsSound}
use vanitykeygen.Hub.Reach.{subscribe-IsSound}
use vanitykeygen.Server.Stream.{
  Piece, Stream, streaming, connect, Turn, turn, turn_if, Operation, perform, Moment, run_stream,
  own, other,
}
use vanitykeygen.Server.Stream.Steps.{accepted, perform_lem}
use vanitykeygen.Server.Stream.Turns.{messages, passed, turn-IsTurned}

-- The messages that the channel of a stream had room for, in the order of the broadcasts.
abbrev pub accepted_by : Env → List Moment → Stream → Hub → List String
accepted_by env [] st h = []
accepted_by env (own t ∷ ms) st h =
    accepted_by env ms (turn_if st.running t st h).0 (turn_if st.running t st h).1
accepted_by env (other op ∷ ms) st h = elim (perform env op h) [
  | none ↦ []
  | some h' ↦ accepted env op st.subscription.chan h ++ accepted_by env ms st h'
]

-- A run that does not panic; if the stream has not returned by its end, it had not at its start, and
-- what it wrote with what waits for it has grown by the accepted messages.
pub record IsConserved (start finish : Stream) (h h' : Hub) (new : List String) : Type 0 where
  pub sound : IsSound h'
  pub was : finish.running ≡ true → start.running ≡ true
  pub grows : finish.running ≡ true → passed finish h' ≡ passed start h ++ new

abbrev pub Conserves : Env → List Moment → Stream → Hub → Type 0
Conserves env ms st h =
    (st' : Stream) × (h' : Hub) × (run_stream env ms st h ≡ some (st', h'))
    × IsConserved st st' h h' (accepted_by env ms st h)

concat_nil : (xs : List String) → xs ≡ xs ++ []
concat_nil [] = refl
concat_nil (x ∷ xs) = ap (λ r. x ∷ r) (concat_nil xs)

concat_assoc : (xs ys zs : List String) → (xs ++ ys) ++ zs ≡ xs ++ (ys ++ zs)
concat_assoc [] ys zs = refl
concat_assoc (x ∷ xs) ys zs = ap (λ r. x ∷ r) (concat_assoc xs ys zs)

passed-perform :
    (st : Stream) (h h' : Hub) (new : List String)
    → (h'.chans st.subscription.chan).buffer ≡ (h.chans st.subscription.chan).buffer ++ new
    → passed st h' ≡ passed st h ++ new
passed-perform st h h' new e =
    ap (λ l. messages st.written ++ l) e
    ∙ sym (concat_assoc (messages st.written) (h.chans st.subscription.chan).buffer new)

accepted_by-other :
    (env : Env) (op : Operation) (ms : List Moment) (st : Stream) (h h1 : Hub)
    → perform env op h ≡ some h1
    → accepted_by env (other op ∷ ms) st h
      ≡ accepted env op st.subscription.chan h ++ accepted_by env ms st h1
accepted_by-other env op ms st h h1 done = rw (accepted_by, done) refl

-- the same of a run that begins with a turn
abbrev Turned : Bool → Env → Turn → List Moment → Stream → Hub → Type 0
Turned b env t ms st h =
    (st' : Stream) × (h' : Hub) × (run_stream env ms (turn_if b t st h).0 (turn_if b t st h).1
      ≡ some (st', h'))
    × IsConserved st st' h h' (accepted_by env ms (turn_if b t st h).0 (turn_if b t st h).1)

pub run_stream-Conserves :
    (env : Env) (ms : List Moment) (st : Stream) (h : Hub)
    → IsSound h
    → st.subscription.chan < h.next
    → Conserves env ms st h
unfolding run_stream
run_stream-Conserves env [] st h sound made =
    (st, h, refl, record { sound = sound; was = λ on. on; grows = λ on. concat_nil (passed st h) })
run_stream-Conserves env (other op ∷ ms) st h sound made =
    let (h1, done, is) = perform_lem env op st.subscription.chan h made sound in
    let (st', h', ran, rest) = run_stream-Conserves env ms st h1 is.sound is.made in
    (
      st',
      h',
      rw (run_stream, done) ran,
      record {
        sound = rest.sound;
        was = rest.was;
        grows = λ on.
            rest.grows on
            ∙ ap (λ l. l ++ accepted_by env ms st h1)
                (passed-perform st h h1 (accepted env op st.subscription.chan h) is.buffer)
            ∙ concat_assoc (passed st h) (accepted env op st.subscription.chan h)
                (accepted_by env ms st h1)
            ∙ ap (λ l. passed st h ++ l) (sym (accepted_by-other env op ms st h h1 done));
      },
    )
run_stream-Conserves env (own t ∷ ms) st h sound made = elim (Bool-cases st.running) [
  | inr off ↦
      subst (λ b. Turned b env t ms st h) (sym off) (run_stream-Conserves env ms st h sound made)
  | inl on ↦
      let (st1, h1) = turn t st h in
      let is = turn-IsTurned t st h sound in
      let (st', h', ran, rest) =
        run_stream-Conserves env ms st1 h1 is.sound (ground (arith, is.next, is.same, made)) in
      subst (λ b. Turned b env t ms st h) (sym on)
        (
          st',
          h',
          ran,
          record {
            sound = rest.sound;
            was = λ on'. on;
            grows = λ on'.
                rest.grows on'
                ∙ ap (λ l. l ++ accepted_by env ms st1 h1) (is.conserves (rest.was on'));
          },
        )
]

-- the stream that a connection starts
abbrev pub opened : Hub → Stream
opened h = record { subscription = (subscribe h).0; written = Piece.connected ∷ []; running = true }

connect-opened : (h : Hub) → connect true true h ≡ (streaming (opened h), (subscribe h).1)
unfolding connect
connect-opened h = refl

opened-start :
    (h : Hub)
    → ((opened h).subscription.chan < (subscribe h).1.next)
      × (passed (opened h) (subscribe h).1 ≡ [])
unfolding subscribe
opened-start h = elim (Bool-cases h.closed) [
  | inl shut ↦ (ground (arith, shut), ground (arith, shut))
  | inr live ↦ (ground (arith, live), ground (arith, live))
]

-- An event stream that a sound hub has started and that has not returned has written, between keep-
-- alives, the messages that its channel had room for when they were broadcast, each once and in
-- that order, except those at the end that still wait in the channel; nothing panics, whatever
-- others do with the hub.
pub connect-conserves :
    (env : Env) (ms : List Moment) (h : Hub)
    → IsSound h
    → (st st' : Stream) × (h1 h' : Hub) × (connect true true h ≡ (streaming st, h1))
      × (run_stream env ms st h1 ≡ some (st', h'))
      × (st'.running ≡ true
          → messages st'.written ++ (h'.chans st'.subscription.chan).buffer
            ≡ accepted_by env ms st h1)
connect-conserves env ms h sound =
    let (made, fresh) = opened-start h in
    let (st', h', ran, is) =
      run_stream-Conserves env ms (opened h) (subscribe h).1 (subscribe-IsSound h sound) made in
    (
      opened h,
      st',
      (subscribe h).1,
      h',
      connect-opened h,
      ran,
      λ on. is.grows on ∙ ap (λ l. l ++ accepted_by env ms (opened h) (subscribe h).1) fresh,
    )
