-- ===== src/Client/Counting.antt =====
-- No key is lost between a seeker's counter, the statuses that it sends and the client's total.
use vanitykeygen.Common.{
  ℕ, String, ◌+◌, ◌%◌, ◌^◌, List, [], ◌∷◌, ◌++◌, length, ◌≡◌, refl, arith, Bool-cases, List-cases,
  inl, inr, ◌&&◌, ◌||◌,
}
use vanitykeygen.Runtime.{Env, Outcome, ok, err}
use vanitykeygen.Keygen.{KeyResult}
use vanitykeygen.Client.Seeker.{
  Compiled, SeekerStatus, Turn, Seeker, send, match_status, tick_status, test_key, test_keys,
  count_key, tick, tried, search_compiled, seek, seeker, hits_fingerprint, hits_authorized_key,
  sync,
}

-- the keys that statuses report
unfoldable pub total : List SeekerStatus → ℕ
total [] = 0
total (s ∷ rest) = s.key_count + total rest

total-append :
    (ss : List SeekerStatus) (s : SeekerStatus) → total (ss ++ s ∷ []) ≡ total ss + s.key_count
unfolding total
total-append [] s = omega arith
total-append (t ∷ ss) s = omega (arith, total-append ss s)

-- What a seeker has reported and what it has not add up to what it has added to keyCount.
abbrev pub Balanced : Seeker → Type 0
Balanced st = (total st.sent + st.key_count) % 2 ^ 64 ≡ st.counted % 2 ^ 64

send-Balanced :
    (turn : Turn) (s : SeekerStatus) (st : Seeker)
    → s.key_count ≡ st.key_count
    → Balanced st
    → Balanced (send turn s st)
unfolding send
send-Balanced turn s st same h = elim (Bool-cases (turn.taken (length st.sent))) [
  | inl taken ↦ rw (taken, total-append st.sent s) (omega (arith, same, h))
  | inr done ↦ rw done h
]

module _ (env : Env) (sid : ℕ) (turn : Turn) where
  test_key-Balanced :
      (k : KeyResult) (c : Compiled) (st : Seeker)
      → Balanced st
      → Balanced (test_key env sid turn k c st)
  unfolding test_key match_status
  test_key-Balanced k c st h =
      elim (Bool-cases (st.running && (hits_fingerprint env c k || hits_authorized_key env c k))) [
        | inl hit ↦ rw hit (send-Balanced turn _ st refl h)
        | inr miss ↦ rw miss h
      ]

  test_keys-Balanced :
      (k : KeyResult) (cs : List Compiled) (st : Seeker)
      → Balanced st
      → Balanced (test_keys env sid turn k cs st)
  unfolding test_keys
  test_keys-Balanced k [] st h = h
  test_keys-Balanced k (c ∷ cs) st h = test_keys-Balanced k cs _ (test_key-Balanced k c st h)

  tick-Balanced : (st : Seeker) → Balanced st → Balanced (tick env sid turn st)
  unfolding tick tick_status
  tick-Balanced st h = elim (Bool-cases (st.running && turn.ticked)) [
    | inl hit ↦ rw hit (send-Balanced turn _ st refl h)
    | inr miss ↦ rw miss h
  ]

  count_key-Balanced : (st : Seeker) → Balanced st → Balanced (count_key env sid turn st)
  unfolding count_key
  count_key-Balanced st h = omega (arith, h)

  tried-Balanced :
      (r : Outcome String KeyResult) (st : Seeker)
      → Balanced st
      → Balanced (tried env sid turn r st)
  unfolding tried
  tried-Balanced (err e) st h = h
  tried-Balanced (ok k) st h =
      let counted = count_key env sid turn st in
      tick-Balanced (test_keys env sid turn k st.compiled counted)
        (test_keys-Balanced k st.compiled counted (count_key-Balanced st h))

  search_compiled-Balanced :
      (st : Seeker) → Balanced st → Balanced (search_compiled env sid turn st)
  unfolding search_compiled
  search_compiled-Balanced st h = elim (List-cases st.compiled) [
    | inl none_yet ↦ rw (search_compiled, none_yet) h
    | inr (c, cs, some_now) ↦ rw (search_compiled, some_now) (tried-Balanced turn.generated st h)
  ]

  seek-Balanced : (st : Seeker) → Balanced st → Balanced (seek env sid turn st)
  unfolding seek
  seek-Balanced st h = elim (Bool-cases turn.cancelled) [
    | inl done ↦ rw done h
    | inr goes_on ↦ elim (List-cases turn.patterns) [
      | inl idle ↦ rw (goes_on, seek, idle) h
      | inr (p, ps, given) ↦
          rw (goes_on, seek, given)
            (search_compiled-Balanced (record st { compiled = sync env (p ∷ ps) st.compiled }) h)
    ]
  ]

-- From a balanced seeker, whatever turns it meets.
pub seeker-Balanced :
    (env : Env) (sid : ℕ) (turns : List Turn) (st : Seeker)
    → Balanced st
    → Balanced (seeker env sid turns st)
unfolding seeker
seeker-Balanced env sid [] st h = h
seeker-Balanced env sid (turn ∷ turns) st h = elim (Bool-cases st.running) [
  | inl on ↦
      rw on (seeker-Balanced env sid turns (seek env sid turn st) (seek-Balanced env sid turn st h))
  | inr off ↦ rw off h
]
