-- ===== src/Server/Clean.antt =====
-- Actions that leave the tables as they are, or do if they fail, and how the handlers are composed of such.
use vanitykeygen.Common.{ℕ, ◌≤◌, String, ◌≡◌, refl, ◌∙◌, Option-cases, inl, inr}
use vanitykeygen.Hub
use vanitykeygen.Runtime.{Env, Payload, Outcome, ok, err, Action, pure, continue, ◌>>=◌, ◌>>◌}
use vanitykeygen.Store.{Store}
use vanitykeygen.Runtime.Laws.{Keeps}
use vanitykeygen.Store.Clean.{Rows, rows, IsErr, FailsClean}
use vanitykeygen.Server.{Server, Reply, reply, aborted, Body, with_store, failing, broadcast}

-- a status of 400 or more; a panic is no reply
abbrev pub IsError : Reply → Type 0
IsError (reply n b) = 400 ≤ n
IsError aborted = ⊥

-- how an action fails: early with an error, or with a value that is one
abbrev pub Fails : {A : Type 0} → (A → Type 0) → Outcome Reply A → Type 0
Fails bad (ok a) = bad a
Fails bad (err r) = IsError r

abbrev pub Never : {A : Type 0} → A → Type 0
Never a = ⊥

-- An action that leaves the tables as they are, one that does if it fails, and one that does not fail.
abbrev pub Reads : {A : Type 0} → Action Server Reply A → Type 0
Reads m = (r : Rows) → Keeps (λ (s : Server). rows s.store ≡ r) m

abbrev pub CleanIf : {A : Type 0} → (A → Type 0) → Action Server Reply A → Type 0
CleanIf bad m = (s : Server) → Fails bad (m s).0 → rows (m s).1.store ≡ rows s.store

abbrev pub Succeeds : {A : Type 0} → (A → Type 0) → Action Server Reply A → Type 0
Succeeds bad m = (s : Server) → Fails bad (m s).0 → ⊥

module _ {A B : Type 0} (bad : B → Type 0) (m : Action Server Reply A)
    (f : A → Action Server Reply B) where
  pub Reads-CleanIf : Reads m → ((a : A) → CleanIf bad (f a)) → CleanIf bad (m >>= f)
  Reads-CleanIf reads next s = go (m s).0 (m s).1 (reads (rows s.store) s refl)
    where
      go :
          (o : Outcome Reply A) (t : Server)
          → rows t.store ≡ rows s.store
          → Fails bad (continue o f t).0
          → rows (continue o f t).1.store ≡ rows s.store
      go (ok a) t same fails = next a t fails ∙ same
      go (err r) t same fails = same

  pub writes-CleanIf : CleanIf Never m → ((a : A) → Succeeds bad (f a)) → CleanIf bad (m >>= f)
  writes-CleanIf clean next s = go (m s).0 (m s).1 (clean s)
    where
      go :
          (o : Outcome Reply A) (t : Server)
          → (Fails Never o → rows t.store ≡ rows s.store)
          → Fails bad (continue o f t).0
          → rows (continue o f t).1.store ≡ rows s.store
      go (ok a) t same fails = absurd (next a t fails)
      go (err r) t same fails = same fails

  pub bind-Succeeds : Succeeds Never m → ((a : A) → Succeeds bad (f a)) → Succeeds bad (m >>= f)
  bind-Succeeds first next s = go (m s).0 (m s).1 (first s)
    where
      go :
          (o : Outcome Reply A) (t : Server)
          → (Fails Never o → ⊥)
          → Fails bad (continue o f t).0
          → ⊥
      go (ok a) t fine fails = next a t fails
      go (err r) t fine fails = fine fails

module _ (env : Env) where
  broadcast-Succeeds :
      (event_type : String) (payload : Payload) → Succeeds Never (broadcast env event_type payload)
  unfolding broadcast
  broadcast-Succeeds event_type payload s =
      elim (Option-cases (Hub.broadcast env event_type payload s.hub)) [
        | inl panics ↦ rw (broadcast, panics) (λ f. f)
        | inr (hub, sent) ↦ rw (broadcast, sent) (λ f. f)
      ]

  pub announces-Succeeds :
      (event_type : String) (payload : Payload) (n : ℕ) (b : Body)
      → (400 ≤ n → ⊥)
      → Succeeds IsError (broadcast env event_type payload >> pure (reply n b))
  announces-Succeeds event_type payload n b fine =
      bind-Succeeds IsError (broadcast env event_type payload) _
        (broadcast-Succeeds event_type payload) λ u s fails. fine fails

pub with_store-CleanIf :
    {A : Type 0} (m : Action Store String A) (e : String → Reply)
    → FailsClean m
    → CleanIf Never (with_store m e)
with_store-CleanIf {A} m e clean s = go (m s.store).0 (m s.store).1 (clean s.store)
  where
    go :
        (o : Outcome String A) (t : Store)
        → (IsErr o → rows t ≡ rows s.store)
        → Fails Never (failing o e)
        → rows t ≡ rows s.store
    go (ok a) t same fails = absurd fails
    go (err x) t same fails = same tt
