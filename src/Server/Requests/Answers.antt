-- ===== src/Server/Requests/Answers.antt =====
-- pkg/server: what the handlers are made of ends with a reply or a value, and leaves the hub sound.
use vanitykeygen.Common.{ℕ, String, Option, none, some, ◌≢◌}
use vanitykeygen.Vkg.{Target}
use vanitykeygen.Runtime.{Env, Payload, Outcome, ok, err, Action, pure, continue, ◌>>=◌, ◌>>◌}
use vanitykeygen.Store.{Store}
use vanitykeygen.Server.TargetRoutes.{required, or_not_found}
use vanitykeygen.Hub.Safety.{IsSound}
use vanitykeygen.Hub.Delivery.{broadcast_lem}
use vanitykeygen.Server.{
  Server, Reply, reply, aborted, Body, error, with_store, failing, internal, broadcast, read_json,
  require,
}
use vanitykeygen.Server.Validation.{Check, validate_target_enums, validate_pattern}

-- How an action ends: with a value that is good, or early with a reply.
abbrev pub Ends : {A : Type 0} → (A → Type 0) → Outcome Reply A → Type 0
Ends good (ok a) = good a
Ends good (err r) = r ≢ aborted

-- From a sound hub the action leaves one and does not panic.
abbrev pub Answers : {A : Type 0} → (A → Type 0) → Action Server Reply A → Type 0
Answers good m = (s : Server) → IsSound s.hub → IsSound (m s).1.hub × Ends good (m s).0

abbrev pub IsAny : {A : Type 0} → A → Type 0
IsAny a = Unit

abbrev pub IsReply : Reply → Type 0
IsReply r = r ≢ aborted

pub bind-Answers :
    {A B : Type 0} (good : B → Type 0) (m : Action Server Reply A) (f : A → Action Server Reply B)
    → Answers IsAny m
    → ((a : A) → Answers good (f a))
    → Answers good (m >>= f)
bind-Answers {A} {B} good m f km kf s h = go (m s).0 (m s).1 (km s h)
  where
    go :
        (o : Outcome Reply A) (t : Server)
        → IsSound t.hub × Ends IsAny o
        → IsSound (continue o f t).1.hub × Ends good (continue o f t).0
    go (ok a) t k = kf a t k.0
    go (err e) t k = (k.0, k.1)

pub failing-Ends :
    {A : Type 0} (o : Outcome String A) (e : String → Reply)
    → ((x : String) → e x ≢ aborted)
    → Ends IsAny (failing o e)
failing-Ends (ok a) e k = tt
failing-Ends (err x) e k = k x

pub replies : (n : ℕ) (b : Body) → reply n b ≢ aborted
replies n b h = cc

pub asks-Answers :
    {A B : Type 0} (good : B → Type 0) (m : Action Store String A) (e : String → Reply)
    (next : A → Action Server Reply B)
    → ((x : String) → e x ≢ aborted)
    → ((a : A) → Answers good (next a))
    → Answers good (with_store m e >>= next)
asks-Answers good m e next k k' =
    bind-Answers good (with_store m e) next (λ s h. (h, failing-Ends (m s.store).0 e k)) k'

pub read_json-Answers : {A : Type 0} (body : Option A) → Answers IsAny (read_json body)
read_json-Answers none s h = (h, replies 400 (error "invalid JSON"))
read_json-Answers (some a) s h = (h, tt)

pub require-Answers : (c : Check) → Answers IsAny (require c)
require-Answers none s h = (h, tt)
require-Answers (some e) s h = (h, replies 400 (error e))

pub or_not_found-Answers :
    {A : Type 0} (msg : String) (o : Option A) → Answers IsAny (or_not_found msg o)
or_not_found-Answers msg none s h = (h, replies 404 (error msg))
or_not_found-Answers msg (some a) s h = (h, tt)

pub internals : (x : String) → internal x ≢ aborted
internals x = replies 500 (error x)

module _ (env : Env) where
  pub broadcast-Answers :
      (event_type : String) (payload : Payload) → Answers IsAny (broadcast env event_type payload)
  unfolding broadcast
  broadcast-Answers event_type payload s h =
      let (hub, sent, sound, _) = broadcast_lem env event_type payload s.hub h in
      rw (broadcast, sent) (sound, tt)

  pub announces-Answers :
      (event_type : String) (payload : Payload) (n : ℕ) (b : Body)
      → Answers IsReply (broadcast env event_type payload >> pure (reply n b))
  announces-Answers event_type payload n b =
      bind-Answers IsReply (broadcast env event_type payload) _
        (broadcast-Answers event_type payload) λ u s h. (h, replies n b)

  -- a handler that looks something up
  pub finds-Answers :
      {A : Type 0} (m : Action Store String (Option A)) (msg : String) (n : ℕ) (shown : A → Body)
      → Answers IsReply
          (do found ← with_store m internal; a ← or_not_found msg found; pure (reply n (shown a)))
  finds-Answers m msg n shown = asks-Answers IsReply m internal _ internals λ found.
      bind-Answers IsReply (or_not_found msg found) _ (or_not_found-Answers msg found)
        λ a s h. (h, replies n (shown a))

  -- the end that creating and updating share
  pub save_checked-Answers :
      {A : Type 0} (t : Target) (write : Action Store String A) (payload : A → Payload) (n : ℕ)
      (shown : A → Body)
      → Answers IsReply (do
        require (required "pattern is required" t.pattern)
        require (validate_target_enums env t)
        require (validate_pattern env t)
        stored ← with_store write internal
        broadcast env "target_update" (payload stored)
        pure (reply n (shown stored)))
  save_checked-Answers t write payload n shown =
      bind-Answers IsReply (require (required "pattern is required" t.pattern)) _
        (require-Answers (required "pattern is required" t.pattern))
        λ u.
          bind-Answers IsReply (require (validate_target_enums env t)) _
            (require-Answers (validate_target_enums env t))
            λ u.
              bind-Answers IsReply (require (validate_pattern env t)) _
                (require-Answers (validate_pattern env t))
                λ u.
                  asks-Answers IsReply write internal _ internals
                    λ stored. announces-Answers "target_update" (payload stored) n (shown stored)
