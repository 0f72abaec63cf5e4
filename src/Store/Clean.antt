-- ===== src/Store/Clean.antt =====
-- pkg/store/store.go: a method that returns an error has changed no table.
use vanitykeygen.Common.{
  ltb, String, true, false, ◌||◌, count, List, [], ◌∷◌, ◌==◌, eq_iff, ◌≡◌, refl, ap, subst, arith,
  All, Option-cases, Bool-cases, inl, inr,
}
use vanitykeygen.Vkg.{Target, Match, ClientInfo}
use vanitykeygen.Runtime.{Env, Outcome, ok, err, Action, pure, ◌>>◌}
use vanitykeygen.Table.{insert, delete_where, has_key}
use vanitykeygen.Store.{Store, TargetRow, MatchRow, ClientRow}
use vanitykeygen.Store.Calls.{begin_cases, Begun, call_cases}
use vanitykeygen.Store.Integrity.{IsConsistent, RefersTo, has_target}
use vanitykeygen.Store.Targets.{create_target, update_target, insert_target}
use vanitykeygen.Store.Targets.Roundtrip.{write_target}
use vanitykeygen.Store.Targets.Cascade.{without_target}
use vanitykeygen.Store.Matches.{record_match, insert_match}
use vanitykeygen.Store.Clients.{upsert_client}
use vanitykeygen.Store.Integrity.Methods.{write_match, write_client}

-- the rows of the three tables
abbrev pub Rows : Type 0
Rows = List TargetRow × List MatchRow × List ClientRow

abbrev pub rows : Store → Rows
rows s = (s.targets, s.matches, s.clients)

abbrev pub IsErr : {A : Type 0} → Outcome String A → Type 0
IsErr (ok a) = ⊥
IsErr (err e) = Unit {0}

abbrev pub FailsClean : {A : Type 0} → Action Store String A → Type 0
FailsClean m = (s : Store) → IsErr (m s).0 → rows (m s).1 ≡ rows s

insert_target-FailsClean : (r : TargetRow) (t : Target) → FailsClean (insert_target r >> pure t)
unfolding insert_target
insert_target-FailsClean r t s =
    elim (Option-cases (insert (λ (x : TargetRow). x.id) r s.targets)) [
      | inl taken ↦ rw (insert_target, taken) (λ fails. refl)
      | inr (rs, added) ↦ rw (insert_target, added) (λ fails. absurd fails)
    ]

insert_match-FailsClean : (r : MatchRow) (m : Match) → FailsClean (insert_match r >> pure m)
unfolding insert_match
insert_match-FailsClean r m s = elim (Option-cases (insert (λ (x : MatchRow). x.id) r s.matches)) [
  | inl taken ↦ rw (insert_match, taken) (λ fails. refl)
  | inr (rs, added) ↦ rw (insert_match, added) (λ fails. absurd fails)
]

module _ (env : Env) where
  pub create_target-FailsClean : (t : Target) → FailsClean (create_target env t)
  unfolding create_target
  create_target-FailsClean t s = elim (begin_cases env t.id t.created_at (write_target t) s) [
    | Begun.failed e n out ↦ rw out (λ fails. refl)
    | Begun.wrote id c n _ _ out ↦ rw out (insert_target-FailsClean _ _ _)
  ]

  pub record_match-FailsClean : (m : Match) → FailsClean (record_match env m)
  unfolding record_match
  record_match-FailsClean m s = elim (begin_cases env m.id m.timestamp (write_match env m) s) [
    | Begun.failed e n out ↦ rw out (λ fails. refl)
    | Begun.wrote id c n _ _ out ↦ rw out (insert_match-FailsClean _ _ _)
  ]

  pub upsert_client-FailsClean : (c : ClientInfo) → FailsClean (upsert_client env c)
  unfolding upsert_client
  upsert_client-FailsClean c s = elim (begin_cases env c.id c.last_seen (write_client env c) s) [
    | Begun.failed e n out ↦ rw out (λ fails. refl)
    | Begun.wrote id t n _ _ out ↦ rw out (λ fails. absurd fails)
  ]

  pub update_target-FailsClean : (t : Target) → FailsClean (update_target env t)
  unfolding update_target
  update_target-FailsClean t s = elim (call_cases env s) [
    | inr (e, n, out) ↦ rw out (λ fails. refl)
    | inl (_, n, _, out) ↦ rw out (λ fails. absurd fails)
  ]

-- What a DELETE that finds no target leaves, where no match refers to a target that is not stored.
delete-targets-none :
    (id : String) (rs : List TargetRow)
    → ltb 0 (count (λ r. r.id == id) rs) ≡ false
    → (delete_where (λ r. r.id == id) rs ≡ rs) × (has_target id rs ≡ false)
unfolding delete_where has_key
delete-targets-none id [] h = (refl, refl)
delete-targets-none id (r ∷ rs) h = ground (arith, delete-targets-none id rs)

delete-matches-none :
    (id : String) (rs : List TargetRow) (ms : List MatchRow)
    → (id == "") ≡ false
    → has_target id rs ≡ false
    → All (RefersTo rs) ms
    → delete_where (λ m. m.target_id == id) ms ≡ ms
unfolding delete_where
delete-matches-none id rs [] given free h = refl
delete-matches-none id rs (m ∷ ms) given free (hm, h) = elim (Bool-cases (m.target_id == id)) [
  | inl its ↦
      let found : (id == "" || has_target id rs) ≡ true =
        subst (λ x. (x == "" || has_target x rs) ≡ true) ((eq_iff m.target_id id).0 its) hm in
      absurd (ground arith)
  | inr other ↦
      rw (delete_where, other) (ap (λ l. m ∷ l) (delete-matches-none id rs ms given free h))
]

pub delete_target-none :
    (id : String) (s : Store)
    → IsConsistent s
    → (id == "") ≡ false
    → ltb 0 (count (λ r. r.id == id) s.targets) ≡ false
    → rows (without_target id s) ≡ rows s
delete_target-none id s h given gone =
    let (same, free) = delete-targets-none id s.targets gone in
    rw (same, delete-matches-none id s.targets s.matches given free h.references) refl
