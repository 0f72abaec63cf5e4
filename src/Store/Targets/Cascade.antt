-- ===== src/Store/Targets/Cascade.antt =====
-- DeleteTarget: what it removes, what it reports, and that it is all or nothing.
use vanitykeygen.Common.{
  ℕ, suc, ltb, Bool, String, none, some, ◌==◌, ◌≡◌, ◌⊎◌, refl, arith, if◌then◌else◌, Option-cases,
  inl, inr, count,
}
use vanitykeygen.Runtime.{Env, ok, err}
use vanitykeygen.Table.{delete_where}
use vanitykeygen.Table.Laws.{lookup-delete, count-delete, count-pos-lookup, is_some}
use vanitykeygen.Store.{TargetRow, MatchRow, Store, call}
use vanitykeygen.Store.Calls.{at_call}
use vanitykeygen.Store.Targets.{delete_target}
use vanitykeygen.Store.Targets.Roundtrip.{found}

-- The store that a DeleteTarget of `id` leaves: both tables without the rows of `id`.
abbrev pub without_target : String → Store → Store
without_target id s = record s {
  targets = delete_where (λ r. r.id == id) s.targets;
  matches = delete_where (λ m. m.target_id == id) s.matches;
}

-- DeleteTarget succeeds with both DELETEs done and their counts, or a call of the database failed and
-- no table is changed.
pub delete_target_cases :
    (env : Env) (id : String) (s : Store)
    → (delete_target env id s ≡ (
      ok (count (λ m. m.target_id == id) s.matches, ltb 0 (count (λ r. r.id == id) s.targets)),
      at_call (without_target id s) (suc (suc (suc (suc s.calls)))),
    ))
      ⊎ ((e : String) × (n : ℕ) × (env.fault n ≡ some e)
          × (delete_target env id s ≡ (err e, at_call s (suc n))))
unfolding delete_target call
delete_target_cases env id s = elim (Option-cases (env.fault s.calls)) [
  | inr (e, f) ↦ inr (e, s.calls, f, ground (arith, f))
  | inl f0 ↦ elim (Option-cases (env.fault (suc s.calls))) [
    | inr (e, f) ↦ inr (e, suc s.calls, f, ground (arith, f0, f))
    | inl f1 ↦ elim (Option-cases (env.fault (suc (suc s.calls)))) [
      | inr (e, f) ↦ inr (e, suc (suc s.calls), f, ground (arith, f0, f1, f))
      | inl f2 ↦ elim (Option-cases (env.fault (suc (suc (suc s.calls))))) [
        | inr (e, f) ↦ inr (e, suc (suc (suc s.calls)), f, ground (arith, f0, f1, f2, f))
        | inl f3 ↦ inl (ground (arith, f0, f1, f2, f3))
      ]
    ]
  ]
]

-- What a successful DeleteTarget means, for every target and every match.
pub record IsDeleted (id : String) (s s' : Store) (matches_deleted : ℕ) (target_deleted : Bool)
    : Type 0 where
  pub target : (k : String) → found k s' ≡ (if id == k then none else found k s)
  pub matches :
      (k : String)
      → count (λ m. m.target_id == k) s'.matches
        ≡ (if id == k then 0 else count (λ m. m.target_id == k) s.matches)
  pub matches_counted : matches_deleted ≡ count (λ m. m.target_id == id) s.matches
  pub target_counted : target_deleted ≡ is_some (found id s)
  pub clients : s'.clients ≡ s.clients

without_target-IsDeleted :
    (id : String) (s : Store) (n : ℕ)
    → IsDeleted id s
        (at_call (without_target id s) n)
        (count (λ m. m.target_id == id) s.matches)
        (ltb 0 (count (λ r. r.id == id) s.targets))
without_target-IsDeleted id s n = record {
  target = λ k. rw (lookup-delete (λ (r : TargetRow). r.id) k id s.targets) (ground arith);
  matches = λ k. count-delete (λ (m : MatchRow). m.target_id) k id s.matches;
  matches_counted = refl;
  target_counted = ground (arith, count-pos-lookup (λ (r : TargetRow). r.id) id s.targets);
  clients = refl;
}

-- DeleteTarget either succeeds, and then exactly the target with this ID and the matches attributed
-- to it are gone and the results are their number and whether the target was there; or a call of
-- the database failed, its error is the result, and every table is as before.
pub delete_target_outcome :
    (env : Env) (id : String) (s : Store)
    → ((n : ℕ) × (gone : Bool) × (s' : Store) × (delete_target env id s ≡ (ok (n, gone), s'))
        × IsDeleted id s s' n gone)
      ⊎ ((e : String) × (n : ℕ) × (env.fault n ≡ some e)
          × (delete_target env id s ≡ (err e, at_call s (suc n))))
delete_target_outcome env id s = elim (delete_target_cases env id s) [
  | inl done ↦ inl (_, _, _, done, without_target-IsDeleted id s _)
  | inr failed ↦ inr failed
]

pub delete_target-IsDeleted :
    (env : Env) (id : String) (s s' : Store) (n : ℕ) (gone : Bool)
    → delete_target env id s ≡ (ok (n, gone), s')
    → IsDeleted id s s' n gone
delete_target-IsDeleted env id s s' n gone h = elim (delete_target_cases env id s) [
  | inl done ↦
      let same_n : count (λ m. m.target_id == id) s.matches ≡ n = cc in
      let same_gone : ltb 0 (count (λ r. r.id == id) s.targets) ≡ gone = cc in
      let same_s : at_call (without_target id s) (suc (suc (suc (suc s.calls)))) ≡ s' = cc in
      rw (← same_n, ← same_gone, ← same_s) (without_target-IsDeleted id s _)
  | inr (e, _, _, failed) ↦ cc
]
