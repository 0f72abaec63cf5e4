-- ===== src/Runtime/Laws.antt =====
-- Actions: inversion of one that succeeds, and those that keep a property of the state.
use vanitykeygen.Common.{◌≡◌, refl}
use vanitykeygen.Runtime.{Outcome, ok, err, Action, pure, continue, ◌>>=◌, ◌>>◌}

module _ {S E A B : Type 0} where
  -- A bind that succeeds has passed through a result and a state of its first action.
  pub bind-eq-ok :
      (m : Action S E A) (f : A → Action S E B) (s : S) {b : B} {s' : S}
      → (m >>= f) s ≡ (ok b, s')
      → (a : A) × (t : S) × (m s ≡ (ok a, t)) × (f a t ≡ (ok b, s'))
  bind-eq-ok m f s {b} {s'} h = go (m s) refl h
    where
      go :
          (r : Outcome E A × S)
          → m s ≡ r
          → continue r.0 f r.1 ≡ (ok b, s')
          → (a : A) × (t : S) × (m s ≡ (ok a, t)) × (f a t ≡ (ok b, s'))
      go (ok a, t) e k = (a, t, e, k)
      go (err x, t) e k = cc

-- An action that keeps a property of the state, whatever its outcome.
abbrev pub Keeps : {S E A : Type 0} → (S → Type 0) → Action S E A → Type 0
Keeps {S} P m = (s : S) → P s → P (m s).1

module _ {S E : Type 0} (P : S → Type 0) where
  pub bind-Keeps :
      {A B : Type 0} (m : Action S E A) (f : A → Action S E B)
      → Keeps P m
      → ((a : A) → Keeps P (f a))
      → Keeps P (m >>= f)
  bind-Keeps {A} {B} m f km kf s h = go (m s).0 (m s).1 (km s h)
    where
      go : (o : Outcome E A) (t : S) → P t → P (continue o f t).1
      go (ok a) t k = kf a t k
      go (err e) t k = k

-- An action that then returns a value leaves its state.
pub state-pure :
    {S E A B : Type 0} (m : Action S E A) (b : B) (s : S) → ((m >> pure b) s).1 ≡ (m s).1
state-pure {S} {E} {A} {B} m b s = go (m s).0 (m s).1
  where
    go : (o : Outcome E A) (t : S) → (continue o (λ a. pure {E = E} b) t).1 ≡ t
    go (ok a) t = refl
    go (err e) t = refl
