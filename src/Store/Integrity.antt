-- ===== src/Store/Integrity.antt =====
-- Keys and references of the database: no two rows of a table have the same ID, and a match that names a
-- target names one that is stored.
pub mod Methods
use vanitykeygen.Common.{
  String, Bool, true, false, not, ◌&&◌, ◌||◌, none, some, List, [], ◌∷◌, ◌++◌, ◌==◌, eq_iff, ◌≡◌,
  refl, sym, ap, ◌∙◌, arith, All, any, filter, Bool-cases, Option-cases, inl, inr,
}
use vanitykeygen.Vkg.{Target, Match, Time, ClientInfo}
use vanitykeygen.Table.{has_key, insert, update, delete_where, IsKeyed}
use vanitykeygen.Table.Keys.{
  IsKeyed-nil, insert-IsKeyed, update-IsKeyed, upsert-IsKeyed, delete_where-IsKeyed,
  update_where-IsKeyed,
}
use vanitykeygen.Store.{TargetRow, MatchRow, ClientRow, Store, empty_store}
use vanitykeygen.Store.Targets.{set_target}

abbrev pub has_target : String → List TargetRow → Bool
has_target id rows = has_key (λ (r : TargetRow). r.id) id rows

-- The match was attributed to no target, or to one that is stored.
abbrev pub RefersTo : List TargetRow → MatchRow → Type 0
RefersTo rows m = (m.target_id == "" || has_target m.target_id rows) ≡ true

pub record IsConsistent (s : Store) : Type 0 where
  pub targets : IsKeyed (λ (r : TargetRow). r.id) s.targets
  pub matches : IsKeyed (λ (r : MatchRow). r.id) s.matches
  pub clients : IsKeyed (λ (r : ClientRow). r.id) s.clients
  pub references : All (RefersTo s.targets) s.matches

pub empty_store-IsConsistent : IsConsistent empty_store
empty_store-IsConsistent = record {
  targets = IsKeyed-nil (λ (r : TargetRow). r.id);
  matches = IsKeyed-nil (λ (r : MatchRow). r.id);
  clients = IsKeyed-nil (λ (r : ClientRow). r.id);
  references = tt;
}

-- References stay good while no target goes.
pub All-RefersTo :
    (old new : List TargetRow) (ms : List MatchRow)
    → ((id : String) → has_target id old ≡ true → has_target id new ≡ true)
    → All (RefersTo old) ms
    → All (RefersTo new) ms
All-RefersTo old new [] grows h = tt
All-RefersTo old new (m ∷ ms) grows (hm, h) =
    (ground (arith, hm, grows m.target_id), All-RefersTo old new ms grows h)

has_key-concat :
    (id : String) (rows : List TargetRow) (r : TargetRow)
    → has_target id rows ≡ true
    → has_target id (rows ++ r ∷ []) ≡ true
unfolding has_key
has_key-concat id [] r h = absurd (ground arith)
has_key-concat id (x ∷ rows) r h = ground (arith, has_key-concat id rows r)

pub insert-has_target :
    (r : TargetRow) (rows rows' : List TargetRow) (id : String)
    → insert (λ x. x.id) r rows ≡ some rows'
    → has_target id rows ≡ true
    → has_target id rows' ≡ true
unfolding insert
insert-has_target r rows rows' id added h =
    elim (Bool-cases (has_key (λ (x : TargetRow). x.id) r.id rows)) [
      | inl taken ↦ absurd (ground (arith, taken))
      | inr free ↦
          let e : rows ++ r ∷ [] ≡ rows' = ground arith in rw (← e) (has_key-concat id rows r h)
    ]

pub update-has_target :
    (t : Target) (rows : List TargetRow) (id : String)
    → has_target id rows ≡ true
    → has_target id (update (λ r. r.id) t.id (set_target t) rows) ≡ true
unfolding has_key update set_target
update-has_target t [] id h = h
update-has_target t (r ∷ rows) id h = ground (arith, update-has_target t rows id)

has_target-delete :
    (id gone : String) (rows : List TargetRow)
    → (gone == id) ≡ false
    → has_target id rows ≡ true
    → has_target id (delete_where (λ r. r.id == gone) rows) ≡ true
unfolding has_key delete_where
has_target-delete id gone [] e h = h
has_target-delete id gone (r ∷ rows) e h =
    ground
      (arith, has_target-delete id gone rows e, eq_iff r.id gone, eq_iff r.id id, eq_iff gone id)

-- Deleting a target with its matches leaves good references.
pub delete-RefersTo :
    (gone : String) (rows : List TargetRow) (ms : List MatchRow)
    → All (RefersTo rows) ms
    → All
        (RefersTo (delete_where (λ r. r.id == gone) rows))
        (delete_where (λ m. m.target_id == gone) ms)
unfolding delete_where
delete-RefersTo gone rows [] h = tt
delete-RefersTo gone rows (m ∷ ms) (hm, h) = elim (Bool-cases (m.target_id == gone)) [
  | inl its ↦ rw (delete_where, its) (delete-RefersTo gone rows ms h)
  | inr other ↦
      rw (delete_where, other)
        (
          ground (
            arith,
            hm,
            other,
            has_target-delete m.target_id gone rows,
            eq_iff gone m.target_id,
            eq_iff m.target_id gone,
          ),
          delete-RefersTo gone rows ms h,
        )
]

concat-RefersTo :
    (rows : List TargetRow) (ms : List MatchRow) (m : MatchRow)
    → All (RefersTo rows) ms
    → RefersTo rows m
    → All (RefersTo rows) (ms ++ m ∷ [])
concat-RefersTo rows [] m h hm = (hm, tt)
concat-RefersTo rows (x ∷ ms) m (hx, h) hm = (hx, concat-RefersTo rows ms m h hm)

pub insert-RefersTo :
    (rows : List TargetRow) (m : MatchRow) (ms ms' : List MatchRow)
    → insert (λ x. x.id) m ms ≡ some ms'
    → RefersTo rows m
    → All (RefersTo rows) ms
    → All (RefersTo rows) ms'
unfolding insert
insert-RefersTo rows m ms ms' added hm h =
    elim (Bool-cases (has_key (λ (x : MatchRow). x.id) m.id ms)) [
      | inl taken ↦ absurd (ground (arith, taken))
      | inr free ↦
          let e : ms ++ m ∷ [] ≡ ms' = ground arith in rw (← e) (concat-RefersTo rows ms m h hm)
    ]
