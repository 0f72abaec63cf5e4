-- ===== src/Server/Keeps.antt =====
-- Actions that keep a property of the database, and how the handlers are composed of such.
use vanitykeygen.Common.{
  String, false, none, some, ◌==◌, ◌≡◌, refl, arith, Option, Bool-cases, Option-cases, inl, inr,
}
use vanitykeygen.Hub
use vanitykeygen.Runtime.{Env, Payload, Action, pure, ◌>>=◌, ◌>>◌}
use vanitykeygen.Runtime.Laws.{Keeps, bind-Keeps}
use vanitykeygen.Store.{Store}
use vanitykeygen.Server.{
  Server, Reply, Handler, with_store, read_json, require, broadcast, internal,
}
use vanitykeygen.Server.Validation.{Check}
use vanitykeygen.Server.TargetRoutes.{or_not_found, required}

pub required-given : (msg value : String) → required msg value ≡ none → (value == "") ≡ false
required-given msg value h = elim (Bool-cases (value == "")) [
  | inl missing ↦ absurd (ground (arith, missing))
  | inr given ↦ given
]

module _ (env : Env) (P : Store → Type 0) where
  -- the same of the server
  abbrev pub Serves : Server → Type 0
  Serves s = P s.store

  pub with_store-Keeps :
      {A : Type 0} (m : Action Store String A) (e : String → Reply)
      → Keeps P m
      → Keeps Serves (with_store m e)
  with_store-Keeps m e k s h = k s.store h

  pub broadcast-Keeps :
      (event_type : String) (payload : Payload) → Keeps Serves (broadcast env event_type payload)
  unfolding broadcast
  broadcast-Keeps event_type payload s h =
      elim (Option-cases (Hub.broadcast env event_type payload s.hub)) [
        | inl panics ↦ rw (broadcast, panics) h
        | inr (hub, sent) ↦ rw (broadcast, sent) h
      ]

  -- What follows on a check may use that it found nothing.
  pub require-Keeps :
      (c : Check) (next : Handler)
      → (c ≡ none → Keeps Serves next)
      → Keeps Serves (require c >> next)
  require-Keeps none next k s h = k refl s h
  require-Keeps (some e) next k s h = h

  pub read_json-Keeps : {A : Type 0} (body : Option A) → Keeps Serves (read_json body)
  read_json-Keeps none s h = h
  read_json-Keeps (some a) s h = h

  pub or_not_found-Keeps :
      {A : Type 0} (msg : String) (o : Option A) → Keeps Serves (or_not_found msg o)
  or_not_found-Keeps msg none s h = h
  or_not_found-Keeps msg (some a) s h = h

  -- a handler that asks the store and goes on with the answer
  pub asks-Keeps :
      {A : Type 0} (m : Action Store String A) (e : String → Reply) (next : A → Handler)
      → Keeps P m
      → ((a : A) → Keeps Serves (next a))
      → Keeps Serves (with_store m e >>= next)
  asks-Keeps m e next k k' = bind-Keeps Serves (with_store m e) next (with_store-Keeps m e k) k'

  pub announces-Keeps :
      (event_type : String) (payload : Payload) (r : Reply)
      → Keeps Serves (broadcast env event_type payload >> pure r)
  announces-Keeps event_type payload r =
      bind-Keeps Serves (broadcast env event_type payload) _ (broadcast-Keeps event_type payload)
        λ u s h. h

  -- a handler that looks something up
  pub finds-Keeps :
      {A : Type 0} (m : Action Store String (Option A)) (msg : String) (answer : A → Reply)
      → Keeps P m
      → Keeps Serves (do found ← with_store m internal; a ← or_not_found msg found; pure (answer a))
  finds-Keeps m msg answer k = asks-Keeps m internal _ k λ found.
      bind-Keeps Serves (or_not_found msg found) _ (or_not_found-Keeps msg found) λ a s h. h
