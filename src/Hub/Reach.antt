-- ===== src/Hub/Reach.antt =====
-- The hub under any interleaving of its operations by the handlers: each holds the mutex, so an
-- interleaving is a sequence of steps; a receive is a step of its own.
use vanitykeygen.Common.{
  ℕ, ◌≤◌, String, true, false, none, some, [], length, ◌≡◌, ◌≢◌, arith, Bool-cases, List-cases, inl,
  inr,
}
use vanitykeygen.Runtime.{Env, Payload}
use vanitykeygen.Hub.{
  Hub, capacity, new_hub, Subscription, subscribe, unsubscribe, close, broadcast, receive,
}
use vanitykeygen.Hub.Safety.{
  registered, IsSound, new_hub-IsSound, registered-remove, remove-IsDistinct, close_lem,
  registered_cong,
}
use vanitykeygen.Hub.Delivery.{broadcast_lem}

pub data Step (env : Env) (h : Hub) : Hub → Type 0 where
  subscribes : {h' : Hub} → h' ≡ (subscribe h).1 → Step env h h'
  unsubscribes : {h' : Hub} → (sub : Subscription) → h' ≡ unsubscribe sub h → Step env h h'
  broadcasts :
      {h' : Hub}
      → (event_type : String) (payload : Payload) → broadcast env event_type payload h ≡ some h'
      → Step env h h'
  receives : {h' : Hub} → (ch : ℕ) → h' ≡ (receive ch h).1 → Step env h h'
  closes : {h' : Hub} → close h ≡ some h' → Step env h h'

pub data Reach (env : Env) : Hub → Type 0 where
  start : Reach env new_hub
  later : {h h' : Hub} → Reach env h → Step env h h' → Reach env h'

not_registered : (h : Hub) → IsSound h → registered h.next h.clients ≡ false
not_registered h s = elim (Bool-cases (registered h.next h.clients)) [
  | inl r ↦ absurd (omega (arith, s.made h.next r))
  | inr n ↦ n
]

pub subscribe-IsSound : (h : Hub) → IsSound h → IsSound (subscribe h).1
unfolding subscribe
subscribe-IsSound h s = elim (Bool-cases h.closed) [
  | inl shut ↦ rw shut (record {
    live = λ ch r. ground (arith, s.live ch r, s.made ch r);
    made = λ ch r. omega (arith, s.made ch r);
    distinct = s.distinct;
    bounded = λ ch. ground (arith, s.bounded ch);
    ended = λ e. s.ended shut;
  })
  | inr running ↦ rw running (record {
    live = λ ch r. ground (arith, s.live ch);
    made = λ ch r. ground (arith, s.made ch);
    distinct = (not_registered h s, s.distinct);
    bounded = λ ch. ground (arith, s.bounded ch);
    ended = λ e. ground (arith, running);
  })
]

pub unsubscribe-IsSound : (sub : Subscription) (h : Hub) → IsSound h → IsSound (unsubscribe sub h)
unfolding unsubscribe
unsubscribe-IsSound sub h s = elim (Bool-cases sub.registered) [
  | inr noop ↦ rw noop s
  | inl deletes ↦ rw deletes (record {
    live = λ ch r. ground (arith, s.live ch, registered-remove sub.chan ch h.clients);
    made = λ ch r. ground (arith, s.made ch, registered-remove sub.chan ch h.clients);
    distinct = remove-IsDistinct sub.chan h.clients s.distinct;
    bounded = s.bounded;
    ended = λ e. ground (arith, s.ended e);
  })
]

pub receive-IsSound : (ch : ℕ) (h : Hub) → IsSound h → IsSound (receive ch h).1
unfolding receive
receive-IsSound ch h s = elim (List-cases (h.chans ch).buffer) [
  | inl nothing ↦ rw (nothing, receive) s
  | inr (msg, rest, found) ↦
      rw (found, receive)
        (record {
          live = λ j r. ground (arith, s.live j r, s.live ch, registered_cong j ch h.clients);
          made = s.made;
          distinct = s.distinct;
          bounded = λ j. ground (arith, s.bounded j, s.bounded ch, found);
          ended = s.ended;
        })
]

Step-IsSound : {env : Env} {h h' : Hub} → Step env h h' → IsSound h → IsSound h'
Step-IsSound {h} (Step.subscribes e) s = rw e (subscribe-IsSound h s)
Step-IsSound {h} (Step.unsubscribes sub e) s = rw e (unsubscribe-IsSound sub h s)
Step-IsSound {env} {h} {h'} (Step.broadcasts t p e) s =
    let (k, done, sound, _) = broadcast_lem env t p h s in
    let same : k ≡ h' = ground (arith, done, e) in rw (← same) sound
Step-IsSound {h} (Step.receives ch e) s = rw e (receive-IsSound ch h s)
Step-IsSound {h} {h'} (Step.closes e) s =
    let (k, done, sound, _, _, _, _) = close_lem h s in
    let same : k ≡ h' = ground (arith, done, e) in rw (← same) sound

pub Reach-IsSound : {env : Env} {h : Hub} → Reach env h → IsSound h
Reach-IsSound Reach.start = new_hub-IsSound
Reach-IsSound (Reach.later r step) = Step-IsSound step (Reach-IsSound r)

-- In every state of the hub that subscribing, unsubscribing, broadcasting, receiving and closing
-- reach in any order: a further Close and a further Broadcast do not panic, no channel buffers more
-- than 64 messages, and a closed hub has no channel registered.
pub Reach-never_panics :
    (env : Env) (h : Hub)
    → Reach env h
    → (close h ≢ none)
      × ((event_type : String) (payload : Payload) → broadcast env event_type payload h ≢ none)
      × ((ch : ℕ) → length (h.chans ch).buffer ≤ capacity)
      × (h.closed ≡ true → h.clients ≡ [])
Reach-never_panics env h r =
    let s = Reach-IsSound r in
    (
      λ e. let (k, done, _, _, _, _, _) = close_lem h s in cc,
      λ t p e. let (k, done, _, _) = broadcast_lem env t p h s in cc,
      s.bounded,
      s.ended,
    )
