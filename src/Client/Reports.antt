-- ===== src/Client/Reports.antt =====
-- Every match that a seeker reports is one: of a key that it generated and a pattern that it was served.
use mathlib.Core.List.{Memᴰ}
use vanitykeygen.Common.{
  ℕ, String, true, ◌&&◌, ◌||◌, List, [], ◌∷◌, ◌++◌, length, ◌≡◌, refl, ap, subst, arith, Bool-cases,
  List-cases, inl, inr, ◌⊎◌, All,
}
use vanitykeygen.Vkg.{CompiledPattern}
use vanitykeygen.Runtime.{Env, Outcome, ok, err}
use vanitykeygen.Keygen.{KeyResult, empty_key}
use vanitykeygen.Client.Seeker.{
  Compiled, SeekerStatus, Turn, Seeker, new_seeker, sync, send, match_status, tick_status, test_key,
  test_keys, count_key, tick, tried, search_compiled, seek, seeker, hits_fingerprint,
  hits_authorized_key,
}
use vanitykeygen.Client.Genuine.{IsCompiled, Served, sync-Served, Served-IsCompiled}

-- The status of a key that the turn generated and that one of the turn's patterns matches, where the two
-- flags say in which of its scopes.
pub record FromTurn (env : Env) (turn : Turn) (s : SeekerStatus) : Type 0 where
  pub generated : turn.generated ≡ ok s.key
  pub pattern : CompiledPattern
  pub served : Memᴰ pattern turn.patterns
  pub fingerprint :
      s.matched_fingerprint
      ≡ (pattern.match_fingerprint && env.re_match pattern.pattern s.key.fingerprint)
  pub authorized_key :
      s.matched_authorized_key
      ≡ (pattern.match_authorized_key && env.re_match pattern.pattern s.key.authorized_key)
  pub one : (s.matched_fingerprint || s.matched_authorized_key) ≡ true

-- A status of a tick, which has no key, or of a match of one of the turns.
abbrev pub IsGenuine : Env → List Turn → SeekerStatus → Type 0
IsGenuine env turns s =
    (s.key ≡ empty_key) ⊎ ((turn : Turn) × Memᴰ turn turns × FromTurn env turn s)

All-append :
    {A : Type 0} (P : A → Type 0) (xs : List A) (x : A) → All P xs → P x → All P (xs ++ x ∷ [])
All-append P [] x all h = (h, tt)
All-append P (y ∷ xs) x (hy, all) h = (hy, All-append P xs x all h)

-- What every status sent so far has, and the expressions are compiled from their patterns.
pub record Holds (P : SeekerStatus → Type 0) (st : Seeker) : Type 0 where
  pub sent : All P st.sent
  pub compiled : All IsCompiled st.compiled

send-Holds :
    (P : SeekerStatus → Type 0) (turn : Turn) (s : SeekerStatus) (st : Seeker)
    → P s
    → Holds P st
    → Holds P (send turn s st)
unfolding send
send-Holds P turn s st new h = elim (Bool-cases (turn.taken (length st.sent))) [
  | inl taken ↦
      rw taken (record { sent = All-append P st.sent s h.sent new; compiled = h.compiled })
  | inr done ↦ rw done (record { sent = h.sent; compiled = h.compiled })
]

module _ (env : Env) (sid : ℕ) (turn : Turn) where
  status-FromTurn :
      (k : KeyResult) (c : Compiled) (st : Seeker)
      → turn.generated ≡ ok k
      → Served turn.patterns c
      → (hits_fingerprint env c k || hits_authorized_key env c k) ≡ true
      → FromTurn env turn (match_status env sid turn k c st)
  unfolding match_status hits_fingerprint hits_authorized_key
  status-FromTurn k c st made (p, m, e) hit = record {
    generated = made;
    pattern = p;
    served = m;
    fingerprint = ap (λ c. c.match_fingerprint && env.re_match c.re.source k.fingerprint) e;
    authorized_key =
        ap (λ c. c.match_authorized_key && env.re_match c.re.source k.authorized_key) e;
    one = hit;
  }

  module _ (P : SeekerStatus → Type 0) (of_tick : (s : SeekerStatus) → s.key ≡ empty_key → P s)
      (of_match : (s : SeekerStatus) → FromTurn env turn s → P s) where
    test_key-Holds :
        (k : KeyResult) (c : Compiled) (st : Seeker)
        → turn.generated ≡ ok k
        → Served turn.patterns c
        → Holds P st
        → Holds P (test_key env sid turn k c st)
    unfolding test_key
    test_key-Holds k c st made served h =
        elim (Bool-cases
          (st.running && (hits_fingerprint env c k || hits_authorized_key env c k))) [
            | inl hit ↦
                let new = status-FromTurn k c st made served (ground arith) in
                rw hit (
                  send-Holds P turn (match_status env sid turn k c st) st
                    (of_match (match_status env sid turn k c st) new) h)
            | inr miss ↦ rw miss h
          ]

    test_keys-Holds :
        (k : KeyResult) (cs : List Compiled) (st : Seeker)
        → turn.generated ≡ ok k
        → All (Served turn.patterns) cs
        → Holds P st
        → Holds P (test_keys env sid turn k cs st)
    unfolding test_keys
    test_keys-Holds k [] st made all h = h
    test_keys-Holds k (c ∷ cs) st made (served, all) h =
        test_keys-Holds k cs (test_key env sid turn k c st) made all
          (test_key-Holds k c st made served h)

    tick-Holds : (st : Seeker) → Holds P st → Holds P (tick env sid turn st)
    unfolding tick tick_status
    tick-Holds st h = elim (Bool-cases (st.running && turn.ticked)) [
      | inl due ↦ rw due (
          send-Holds P turn (tick_status sid turn st) st (of_tick (tick_status sid turn st) refl) h)
      | inr not_due ↦ rw not_due h
    ]

    tried-Holds :
        (r : Outcome String KeyResult) (st : Seeker)
        → turn.generated ≡ r
        → All (Served turn.patterns) st.compiled
        → Holds P st
        → Holds P (tried env sid turn r st)
    unfolding tried count_key
    tried-Holds (err e) st made all h = h
    tried-Holds (ok k) st made all h =
        let counted = count_key env sid turn st in
        tick-Holds (test_keys env sid turn k st.compiled counted) (
          test_keys-Holds k st.compiled counted made all
            (record { sent = h.sent; compiled = h.compiled }))

    search_compiled-Holds :
        (st : Seeker)
        → All (Served turn.patterns) st.compiled
        → Holds P st
        → Holds P (search_compiled env sid turn st)
    unfolding search_compiled
    search_compiled-Holds st all h = elim (List-cases st.compiled) [
      | inl none_yet ↦ rw (search_compiled, none_yet) h
      | inr (c, cs, some_now) ↦
          rw (search_compiled, some_now) (tried-Holds turn.generated st refl all h)
    ]

    synced-Holds :
        (ps : List CompiledPattern) (st : Seeker)
        → turn.patterns ≡ ps
        → Holds P st
        → Holds P (search_compiled env sid turn (record st { compiled = sync env ps st.compiled }))
    synced-Holds ps st given h =
        let all =
          subst (λ qs. All (Served turn.patterns) (sync env qs st.compiled)) given
            (sync-Served env turn.patterns st.compiled h.compiled) in
        search_compiled-Holds (record st { compiled = sync env ps st.compiled }) all
          (record {
            sent = h.sent;
            compiled = Served-IsCompiled turn.patterns (sync env ps st.compiled) all;
          })

    seek-Holds : (st : Seeker) → Holds P st → Holds P (seek env sid turn st)
    unfolding seek
    seek-Holds st h = elim (Bool-cases turn.cancelled) [
      | inl done ↦ rw done (record { sent = h.sent; compiled = h.compiled })
      | inr goes_on ↦ elim (List-cases turn.patterns) [
        | inl idle ↦ rw (goes_on, seek, idle) h
        | inr (p, ps, given) ↦ rw (goes_on, seek, given) (synced-Holds (p ∷ ps) st given h)
      ]
    ]

module _ (env : Env) (sid : ℕ) (P : SeekerStatus → Type 0)
    (of_tick : (s : SeekerStatus) → s.key ≡ empty_key → P s) where
  seeker-Holds :
      (turns : List Turn) (st : Seeker)
      → ((turn : Turn) → Memᴰ turn turns → (s : SeekerStatus) → FromTurn env turn s → P s)
      → Holds P st
      → Holds P (seeker env sid turns st)
  unfolding seeker
  seeker-Holds [] st of_match h = h
  seeker-Holds (turn ∷ turns) st of_match h = elim (Bool-cases st.running) [
    | inl on ↦ rw on (
        seeker-Holds turns (seek env sid turn st) (λ t m. of_match t (Memᴰ.tail m))
          (seek-Holds env sid turn P of_tick (of_match turn (Memᴰ.head refl)) st h))
    | inr off ↦ rw off (record { sent = h.sent; compiled = h.compiled })
  ]

-- Whatever turns a new seeker meets, every status that it sends is one of a tick, without a key, or
-- has a key that was generated in one of the turns and that matches a pattern which the client held
-- in that turn, in the scopes that the status names.
pub seeker-IsGenuine :
    (env : Env) (sid : ℕ) (turns : List Turn)
    → All (IsGenuine env turns) (seeker env sid turns new_seeker).sent
seeker-IsGenuine env sid turns =
    (seeker-Holds env sid (IsGenuine env turns) (λ s e. inl e) turns new_seeker
      (λ turn m s from. inr (turn, m, from)) (record { sent = tt; compiled = tt })).sent
