-- ===== src/Client/Drains.antt =====
-- pkg/client/main.go: how much a seeker may still send when the context is done.
use vanitykeygen.Common.{
  ℕ, String, if◌then◌else◌, ◌+◌, ◌≤◌, Bool, true, false, List, [], ◌∷◌, length, length-append, ◌≡◌,
  refl, ap, arith, Bool-cases, List-cases, inl, inr,
}
use vanitykeygen.Vkg.{CompiledPattern}
use vanitykeygen.Keygen.{KeyResult}
use vanitykeygen.Runtime.{Env, Outcome, ok, err}
use vanitykeygen.Store.Calls.{Outcome-cases}
use vanitykeygen.Regexp.{compile}
use vanitykeygen.Client.Seeker.{
  Compiled, SeekerStatus, Turn, Seeker, patterns_match, recompile, sync, send, test_key, test_keys,
  count_key, tick, tried, search_compiled, seek, seeker,
}

send-sent :
    (turn : Turn) (s : SeekerStatus) (st : Seeker)
    → length (send turn s st).sent ≤ length st.sent + 1
unfolding send
send-sent turn s st = ground (arith, length-append st.sent (s ∷ []))

one_more :
    (b : Bool) (x st : Seeker)
    → length x.sent ≤ length st.sent + 1
    → length (if b then x else st).sent ≤ length st.sent + 1
one_more true x st h = h
one_more false x st h = omega arith

module _ (env : Env) (sid : ℕ) (turn : Turn) where
  test_key-sent :
      (k : KeyResult) (c : Compiled) (st : Seeker)
      → length (test_key env sid turn k c st).sent ≤ length st.sent + 1
  unfolding test_key
  test_key-sent k c st = one_more _ _ st (send-sent turn _ st)

  test_keys-sent :
      (k : KeyResult) (cs : List Compiled) (st : Seeker)
      → length (test_keys env sid turn k cs st).sent ≤ length st.sent + length cs
  unfolding test_keys
  test_keys-sent k [] st = omega arith
  test_keys-sent k (c ∷ cs) st =
      omega (arith, test_keys-sent k cs (test_key env sid turn k c st), test_key-sent k c st)

  tick-sent : (st : Seeker) → length (tick env sid turn st).sent ≤ length st.sent + 1
  unfolding tick
  tick-sent st = one_more _ _ st (send-sent turn _ st)

  tried-sent :
      (o : Outcome String KeyResult) (st : Seeker)
      → length (tried env sid turn o st).sent ≤ length st.sent + length st.compiled + 1
  unfolding tried count_key
  tried-sent (err e) st = omega arith
  tried-sent (ok k) st =
      omega (arith, tick-sent _, test_keys-sent k st.compiled (count_key env sid turn st))

  recompile-count : (ps : List CompiledPattern) → length (recompile env ps) ≤ length ps
  unfolding recompile
  recompile-count [] = omega arith
  recompile-count (p ∷ ps) = elim (Outcome-cases (compile env p.pattern)) [
    | inl (re, fine) ↦ rw (recompile, fine) (omega (arith, recompile-count ps))
    | inr (e, bad) ↦ rw (recompile, bad) (omega (arith, recompile-count ps))
  ]

  same_count :
      (cs : List Compiled) (ps : List CompiledPattern)
      → patterns_match cs ps ≡ true
      → length cs ≡ length ps
  unfolding patterns_match
  same_count [] [] h = refl
  same_count [] (p ∷ ps) h = cc
  same_count (c ∷ cs) [] h = cc
  same_count (c ∷ cs) (p ∷ ps) h = omega (arith, same_count cs ps (ground (arith, h)))

  sync-count :
      (ps : List CompiledPattern) (cs : List Compiled) → length (sync env ps cs) ≤ length ps
  unfolding sync
  sync-count ps cs = elim (Bool-cases (patterns_match cs ps)) [
    | inl same ↦ rw same (omega (arith, same_count cs ps same))
    | inr stale ↦ rw stale (recompile-count ps)
  ]

  search-sent :
      (st : Seeker)
      → length (search_compiled env sid turn st).sent ≤ length st.sent + length st.compiled + 1
  unfolding search_compiled
  search-sent st = elim (List-cases st.compiled) [
    | inl nothing ↦ rw (search_compiled, nothing) (omega arith)
    | inr (c, cs, held) ↦
        rw (search_compiled, held)
          (omega (arith, tried-sent turn.generated st, ap (λ (x : List Compiled). length x) held))
  ]

  seek-sent :
      (st : Seeker) → length (seek env sid turn st).sent ≤ length st.sent + length turn.patterns + 1
  unfolding seek
  seek-sent st = elim (Bool-cases turn.cancelled) [
    | inl cancelled ↦ rw (seek, cancelled) (omega arith)
    | inr goes_on ↦ elim (List-cases turn.patterns) [
      | inl nothing ↦ rw (seek, goes_on, nothing) (omega arith)
      | inr (p, ps, held) ↦
          rw (seek, goes_on, held)
            (omega (
              arith,
              search-sent (record st { compiled = sync env (p ∷ ps) st.compiled }),
              sync-count (p ∷ ps) st.compiled,
            ))
    ]
  ]

module _ (env : Env) (sid : ℕ) where
  -- A seeker that has returned does nothing more.
  seeker-off : (turns : List Turn) (st : Seeker) → st.running ≡ false → seeker env sid turns st ≡ st
  unfolding seeker
  seeker-off [] st off = refl
  seeker-off (turn ∷ turns) st off = rw (seeker, off) refl

  stopping :
      (stop : Turn) (after : List Turn) (st : Seeker)
      → stop.cancelled ≡ true
      → ((seeker env sid (stop ∷ after) st).running ≡ false)
        × ((seeker env sid (stop ∷ after) st).sent ≡ st.sent)
  unfolding seeker seek
  stopping stop after st cancelled = elim (Bool-cases st.running) [
    | inl on ↦
        rw (seeker, on)
          (rw (seek, cancelled)
            (rw (seeker-off after (record st { running = false }) refl) (refl, refl)))
    | inr off ↦ rw (seeker, off) (refl, refl)
  ]

  -- A seeker that is running and has a turn, in which the context may end, and begins the next turn
  -- with the context done, has returned then, and has sent at most one status for each pattern that
  -- the client held in the first of the two turns and one more, whatever it meets in them.
  pub seeker-drains :
      (turn stop : Turn) (after : List Turn) (st : Seeker)
      → st.running ≡ true
      → stop.cancelled ≡ true
      → ((seeker env sid (turn ∷ stop ∷ after) st).running ≡ false)
        × (length (seeker env sid (turn ∷ stop ∷ after) st).sent
            ≤ length st.sent + length turn.patterns + 1)
  unfolding seeker
  seeker-drains turn stop after st on cancelled =
      let (off, kept) = stopping stop after (seek env sid turn st) cancelled in
      rw (seeker, on) (off, rw kept (seek-sent env sid turn st))
