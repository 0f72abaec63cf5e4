-- ===== src/Store/Targets.antt =====
-- pkg/store/store.go: the methods on the targets table.
pub mod Roundtrip
pub mod Cascade
use vanitykeygen.Common.{
  ℕ, ltb, Bool, String, Option, none, some, List, [], ◌∷◌, ◌==◌, if◌then◌else◌, map, filter, count,
  length, not,
}
use vanitykeygen.Vkg.{Target, Time}
use vanitykeygen.Runtime.{Env, Outcome, ok, err, Action, pure, fail, gets, modify, ◌>>=◌, ◌>>◌}
use vanitykeygen.Text.{join, split}
use vanitykeygen.Table.{lookup, insert, update, delete_where}
use vanitykeygen.Store.{
  TargetRow, MatchRow, Store, format_time, parse_time, call, id_or_new, time_or_now, next_call,
}
use mathlib.Core.Option

-- splitCaseModes
unfoldable pub split_case_modes : String → List String
unfolding split
split_case_modes s = if s == "" then "insensitive" ∷ [] else split b',' s

-- the loop body of scanTargets
unfoldable pub scan_target : TargetRow → Target
scan_target r = record {
  id = r.id;
  type = r.type;
  pattern = r.pattern;
  label = r.label;
  active = r.active;
  case_modes = split_case_modes r.case_modes;
  match_scope = r.match_scope;
  created_at = parse_time r.created_at;
}

-- the columns of INSERT INTO targets
unfoldable pub target_row : Target → TargetRow
target_row t = record {
  id = t.id;
  type = t.type;
  pattern = t.pattern;
  label = t.label;
  active = t.active;
  case_modes = join "," t.case_modes;
  match_scope = t.match_scope;
  created_at = format_time t.created_at;
}

abbrev pub default_modes : List String → List String
default_modes [] = "insensitive" ∷ []
default_modes (m ∷ ms) = m ∷ ms

-- the defaults of CreateTarget, with the ID and the time that it has determined
unfoldable pub with_defaults : Target → String → Time → Target
with_defaults t id created_at = record {
  id = id;
  type = if t.type == "" then "regex" else t.type;
  pattern = t.pattern;
  label = t.label;
  active = t.active;
  case_modes = default_modes t.case_modes;
  match_scope = if t.match_scope == "" then "both" else t.match_scope;
  created_at = created_at;
}

abbrev stored_targets : Option (List TargetRow) → Action Store String (Unit {0})
stored_targets none = fail "UNIQUE constraint failed: targets.id"
stored_targets (some rows) = modify (λ s. record s { targets = rows })

-- the INSERT
unfoldable pub insert_target : TargetRow → Action Store String (Unit {0})
insert_target r s = stored_targets (insert (λ x. x.id) r s.targets) s

-- the columns that UPDATE targets sets
unfoldable pub set_target : Target → TargetRow → TargetRow
set_target t r = record r {
  type = t.type;
  pattern = t.pattern;
  label = t.label;
  active = t.active;
  case_modes = join "," t.case_modes;
  match_scope = t.match_scope;
}

-- DELETE FROM matches WHERE target_id = ?, and DELETE FROM targets WHERE id = ?
unfoldable pub delete_matches : String → Store → Store
delete_matches id s = record s { matches = delete_where (λ m. m.target_id == id) s.matches }

unfoldable pub delete_target_row : String → Store → Store
delete_target_row id s = record s { targets = delete_where (λ r. r.id == id) s.targets }

-- What a transaction that failed has written is rolled back; the calls were made.
abbrev rollback : {A : Type 0} → Store → Outcome String A × Store → Outcome String A × Store
rollback s (ok a, s') = (ok a, s')
rollback s (err e, s') = (err e, record s { calls = s'.calls })

unfoldable pub transaction : {A : Type 0} → Action Store String A → Action Store String A
transaction body s = rollback s (body s)

module _ (env : Env) where
  -- CreateTarget; the result is the target as the caller sees it afterwards
  unfoldable pub create_target : Target → Action Store String Target
  unfolding insert_target with_defaults target_row
  create_target t = do
    id ← id_or_new env t.id
    created_at ← time_or_now env t.created_at
    call env
    insert_target (target_row (with_defaults t id created_at))
    pure (with_defaults t id created_at)

  -- ListTargets
  unfoldable pub list_targets : Action Store String (List Target)
  list_targets = do
    call env
    rows ← gets (λ s. s.targets)
    pure (map scan_target (env.order_by_desc TargetRow (λ r. r.created_at) rows))

  -- GetTarget; `none` is (nil, nil)
  unfoldable pub get_target : String → Action Store String (Option Target)
  get_target id = do
    call env
    row ← gets (λ s. lookup (λ r. r.id) id s.targets)
    pure (Option.map scan_target row)

  -- ListActiveTargets
  unfoldable pub list_active_targets : Action Store String (List Target)
  list_active_targets = do
    call env
    rows ← gets (λ s. filter (λ r. r.active) s.targets)
    pure (map scan_target (env.order_by_desc TargetRow (λ r. r.created_at) rows))

  -- UpdateTarget
  unfoldable pub update_target : Target → Action Store String (Unit {0})
  unfolding set_target
  update_target t = do
    call env
    modify (λ s. record s { targets = update (λ r. r.id) t.id (set_target t) s.targets })

  -- DeleteTarget: BeginTx, two DELETEs and Commit
  unfoldable pub delete_target : String → Action Store String (ℕ × Bool)
  unfolding transaction delete_matches delete_target_row
  delete_target id = transaction do
    call env
    call env
    matches_deleted ← gets (λ s. count (λ m. m.target_id == id) s.matches)
    modify (delete_matches id)
    call env
    rows ← gets (λ s. count (λ r. r.id == id) s.targets)
    modify (delete_target_row id)
    call env
    pure (matches_deleted, ltb 0 rows)
