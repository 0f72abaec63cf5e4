-- ===== src/Store/Calls.antt =====
-- The calls that a method makes before it writes change nothing but the number of the next call.
use vanitykeygen.Common.{
  ℕ, zero, suc, String, ◌==◌, ◌≡◌, ◌≢◌, eq_iff, refl, arith, ◌⊎◌, Option-cases, Bool-cases, inl,
  inr,
}
use vanitykeygen.Vkg.{Time}
use vanitykeygen.Vkg.Id.{hex}
use vanitykeygen.Text.{append}
use vanitykeygen.Runtime.{Env, Outcome, ok, err, Action, ◌>>=◌, ◌>>◌}
use vanitykeygen.Store.{Store, call, now, id_or_new, time_or_now}

-- the store after further calls
abbrev pub at_call : Store → ℕ → Store
at_call s n = record s { calls = n }

module _ (env : Env) where
  pub call-eq : (s : Store) → (call env s).1 ≡ at_call s (suc s.calls)
  unfolding call
  call-eq s = ground arith

  pub now-eq : (s : Store) → (now env s).1 ≡ at_call s (suc s.calls)
  unfolding now
  now-eq s = refl

  pub id_or_new-eq :
      (id : String) (s : Store) → (id_or_new env id s).1 ≡ at_call s (id_or_new env id s).1.calls
  unfolding id_or_new
  id_or_new-eq id s = ground arith

  pub time_or_now-eq :
      (t : Time) (s : Store) → (time_or_now env t s).1 ≡ at_call s (time_or_now env t s).1.calls
  unfolding time_or_now
  time_or_now-eq zero s = refl
  time_or_now-eq (suc t) s = refl

-- What CreateTarget, RecordMatch and UpsertClient do first.
abbrev pub begin :
    {A : Type 0}
    → Env
    → String
    → Time
    → (String → Time → Action Store String A)
    → Action Store String A
begin env id t write = do id' ← id_or_new env id; t' ← time_or_now env t; call env; write id' t'

-- How `begin` ends: by an error with the tables as they were, or in `write`, with an ID and a time that
-- are the given ones where these are set.
pub data Begun {A : Type 0} (id : String) (t : Time) (write : String → Time → Action Store String A)
    (s : Store) (out : Outcome String A × Store) : Type 0 where
  failed : (e : String) (n : ℕ) → out ≡ (err e, at_call s n) → Begun id t write s out
  wrote :
      (id' : String) (t' : Time) (n : ℕ)
      → (id ≢ "" → id' ≡ id)
      → (t ≢ 0 → t' ≡ t)
      → out ≡ write id' t' (at_call s n)
      → Begun id t write s out

pub Outcome-cases :
    {A : Type 0} (o : Outcome String A) → ((a : A) × (o ≡ ok a)) ⊎ ((e : String) × (o ≡ err e))
Outcome-cases (ok a) = inl (a, refl)
Outcome-cases (err e) = inr (e, refl)

-- An action that succeeds with a value for which `P` holds, or fails, and changes no table.
abbrev Tries : {A : Type 0} → (A → Type 0) → Action Store String A → Store → Type 0
Tries {A} P m s =
    ((a : A) × (n : ℕ) × P a × (m s ≡ (ok a, at_call s n)))
    ⊎ ((e : String) × (n : ℕ) × (m s ≡ (err e, at_call s n)))

id_or_new_cases :
    (env : Env) (id : String) (s : Store) → Tries (λ x. id ≢ "" → x ≡ id) (id_or_new env id) s
unfolding id_or_new
id_or_new_cases env id s = elim (Bool-cases (id == "")) [
  | inl missing ↦ elim (Outcome-cases (env.random s.calls)) [
    | inl (b, e) ↦
        inl (
          hex b,
          suc s.calls,
          λ h. absurd (h ((eq_iff id "").0 missing)),
          rw (missing, e, id_or_new),
        )
    | inr (x, e) ↦ inr (append "generate ID: " x, suc s.calls, rw (missing, e, id_or_new))
  ]
  | inr given ↦ inl (id, s.calls, λ h. refl, rw (given, id_or_new))
]

time_or_now_lem :
    (env : Env) (t : Time) (s : Store)
    → (t' : Time) × (n : ℕ) × (t ≢ 0 → t' ≡ t) × (time_or_now env t s ≡ (ok t', at_call s n))
unfolding time_or_now
time_or_now_lem env zero s = (env.now s.calls, suc s.calls, λ h. absurd (h refl), refl)
time_or_now_lem env (suc t) s = (suc t, s.calls, λ h. refl, refl)

pub call_cases : (env : Env) (s : Store) → Tries (λ u. Unit {0}) (call env) s
unfolding call
call_cases env s = elim (Option-cases (env.fault s.calls)) [
  | inl fine ↦ inl (tt, suc s.calls, tt, rw (fine, call))
  | inr (e, fault) ↦ inr (e, suc s.calls, rw (fault, call))
]

pub begin_cases :
    {A : Type 0} (env : Env) (id : String) (t : Time)
    (write : String → Time → Action Store String A) (s : Store)
    → Begun id t write s (begin env id t write s)
begin_cases env id t write s = elim (id_or_new_cases env id s) [
  | inr (e, n, h) ↦ rw h (Begun.failed e n refl)
  | inl (x, n, given, h) ↦
      let (t', m, timed, h') = time_or_now_lem env t (at_call s n) in
      rw (h, h')
        (elim (call_cases env (at_call s m)) [
          | inr (e, k, h'') ↦ rw h'' (Begun.failed e k refl)
          | inl (_, k, _, h'') ↦ rw h'' (Begun.wrote x t' k given timed refl)
        ])
]
