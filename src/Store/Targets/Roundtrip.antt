-- ===== src/Store/Targets/Roundtrip.antt =====
-- What a target reads back as after CreateTarget and UpdateTarget, for every ID.
use mathlib.Core.Option
use text.Mathlib.TextLemmas.{append-eq-nil_iff}
use vanitykeygen.Common.{
  ◌*◌, ◌/◌, String, Option, none, some, List, [], ◌∷◌, ◌==◌, eq_iff, ◌≡◌, ◌≢◌, refl, sym, subst,
  ◌∙◌, arith, if◌then◌else◌, All, Bool-cases, Option-cases, inl, inr,
}
use vanitykeygen.Vkg.{Target, Time}
use vanitykeygen.Runtime.{Env, ok, Action, pure, ◌>>◌}
use vanitykeygen.Text.{join}
use vanitykeygen.Text.Laws.{Lacks, split-join}
use vanitykeygen.Table.{lookup, insert, update}
use vanitykeygen.Table.Laws.{lookup-insert, lookup-update}
use vanitykeygen.Store.{TargetRow, Store, format_time, parse_time, call, next_call, nanos}
use vanitykeygen.Store.Calls.{Begun, begin_cases, at_call}
use vanitykeygen.Store.Targets.{
  split_case_modes, scan_target, target_row, with_defaults, default_modes, insert_target,
  set_target, create_target, get_target, update_target,
}

-- The target that GetTarget returns, if the database answers.
abbrev pub found : String → Store → Option Target
found id s = Option.map scan_target (lookup (λ (r : TargetRow). r.id) id s.targets)

pub get_target_lem :
    (env : Env) (id : String) (s : Store)
    → env.fault s.calls ≡ none
    → get_target env id s ≡ (ok (found id s), next_call s)
unfolding get_target call
get_target_lem env id s h = ground arith

-- What CreateTarget does once it has an ID and a time.
abbrev pub write_target : Target → String → Time → Action Store String Target
write_target t id created_at = do
  insert_target (target_row (with_defaults t id created_at))
  pure (with_defaults t id created_at)

write_target-found :
    (t t' : Target) (id : String) (created_at : Time) (s s' : Store) (k : String)
    → write_target t id created_at s ≡ (ok t', s')
    → (t' ≡ with_defaults t id created_at)
      × (found k s' ≡ (if t'.id == k then some (scan_target (target_row t')) else found k s))
unfolding insert_target with_defaults target_row
write_target-found t t' id created_at s s' k h =
    elim (Option-cases
      (insert (λ x. x.id) (target_row (with_defaults t id created_at)) s.targets)) [
        | inl taken ↦ ground (arith, taken)
        | inr (rows, added) ↦ (
          ground (arith, added),
          ground (arith, added, lookup-insert (λ (r : TargetRow). r.id) k s.targets rows _ added),
        )
      ]

-- A piece of `case_modes` that Join and splitCaseModes keep.
abbrev pub IsPiece : String → Type 0
IsPiece m = (m ≢ "") × Lacks b',' m

join-ne-nil : (m : String) (ms : List String) → m ≢ "" → join "," (m ∷ ms) ≢ ""
unfolding join
join-ne-nil m [] h e = h e
join-ne-nil m (n ∷ ms) h e = h ((append-eq-nil_iff {p = m}).0 e).0

All-Lacks : (ms : List String) → All IsPiece ms → All (Lacks b',') ms
All-Lacks [] h = tt
All-Lacks (m ∷ ms) ((_, h), hs) = (h, All-Lacks ms hs)

split_case_modes-join :
    (ms : List String) → ms ≢ [] → All IsPiece ms → split_case_modes (join "," ms) ≡ ms
unfolding split_case_modes
split_case_modes-join [] h _ = absurd (h refl)
split_case_modes-join (m ∷ ms) _ h = elim (Bool-cases (join "," (m ∷ ms) == "")) [
  | inl empty ↦ absurd (join-ne-nil m ms h.0.0 ((eq_iff (join "," (m ∷ ms)) "").0 empty))
  | inr full ↦ rw full (split-join "," (m ∷ ms) (cc) (All-Lacks (m ∷ ms) h))
]

-- The target with its time as the database holds it.
abbrev pub whole_seconds : Target → Target
whole_seconds t = record t { created_at = t.created_at / nanos * nanos }

pub scan_target-target_row :
    (t : Target)
    → t.case_modes ≢ []
    → All IsPiece t.case_modes
    → scan_target (target_row t) ≡ whole_seconds t
unfolding scan_target target_row format_time parse_time
scan_target-target_row t some_mode h i = record (whole_seconds t) {
  case_modes = split_case_modes-join t.case_modes some_mode h i;
}

abbrev pub HasPieces : Target → Type 0
HasPieces t = (t.case_modes ≢ []) × All IsPiece t.case_modes

default_modes-IsPiece :
    (ms : List String) → All IsPiece ms → (default_modes ms ≢ []) × All IsPiece (default_modes ms)
default_modes-IsPiece [] h = (cc, ((ground (arith, eq_iff "insensitive" ""), ground arith), tt))
default_modes-IsPiece (m ∷ ms) h = (cc, h)

pub with_defaults-HasPieces :
    (t : Target) (id : String) (c : Time)
    → All IsPiece t.case_modes
    → HasPieces (with_defaults t id c)
unfolding with_defaults
with_defaults-HasPieces t id c h = default_modes-IsPiece t.case_modes h

-- After CreateTarget succeeds, the target that it returned is found under its ID with its time cut
-- to whole seconds, and every other ID finds what it found before, if no case mode is empty or has
-- a comma.
pub create_target-found :
    (env : Env) (t t' : Target) (s s' : Store) (k : String)
    → All IsPiece t.case_modes
    → create_target env t s ≡ (ok t', s')
    → found k s' ≡ (if t'.id == k then some (whole_seconds t') else found k s)
unfolding create_target
create_target-found env t t' s s' k pieces h =
    elim (begin_cases env t.id t.created_at (write_target t) s) [
      | Begun.failed e n out ↦ cc
      | Begun.wrote id c n _ _ out ↦
          let (same, there) = write_target-found t t' id c (at_call s n) s' k (sym out ∙ h) in
          let (some_mode, all) =
            subst HasPieces (sym same) (with_defaults-HasPieces t id c pieces) in
          there ∙ rw (scan_target-target_row t' some_mode all)
    ]

split_case_modes-join_default :
    (ms : List String) → All IsPiece ms → split_case_modes (join "," ms) ≡ default_modes ms
split_case_modes-join_default [] h = unfold split_case_modes join in refl
split_case_modes-join_default (m ∷ ms) h = split_case_modes-join (m ∷ ms) (cc) h

-- A target after UpdateTarget: the ID and the time that it had, and the rest as given.
abbrev pub updated : Target → Target → Target
updated t old = record t {
  id = old.id;
  created_at = old.created_at;
  case_modes = default_modes t.case_modes;
}

pub scan_target-set_target :
    (t : Target) (r : TargetRow)
    → All IsPiece t.case_modes
    → scan_target (set_target t r) ≡ updated t (scan_target r)
unfolding scan_target set_target
scan_target-set_target t r h i = record (updated t (scan_target r)) {
  case_modes = split_case_modes-join_default t.case_modes h i;
}

set_target_rows :
    (t : Target) (rows : List TargetRow) (k : String)
    → All IsPiece t.case_modes
    → Option.map scan_target (lookup (λ r. r.id) k (update (λ r. r.id) t.id (set_target t) rows))
      ≡ (if t.id == k
          then Option.map (updated t) (Option.map scan_target (lookup (λ r. r.id) k rows))
          else Option.map scan_target (lookup (λ r. r.id) k rows))
unfolding set_target
set_target_rows t rows k h =
    rw (lookup-update (λ (r : TargetRow). r.id) k t.id (set_target t) rows (λ r. refl))
      (elim (Option-cases (lookup (λ (r : TargetRow). r.id) k rows)) [
        | inl missing ↦ ground (arith, missing)
        | inr (r, there) ↦ ground (arith, there, scan_target-set_target t r h)
      ])

-- After UpdateTarget succeeds, the target with the ID has the given fields, its own ID and time of
-- creation, and insensitive for no case mode; every other target is as before, if no case mode is
-- empty or has a comma.
pub update_target-found :
    (env : Env) (t : Target) (s s' : Store) (k : String)
    → All IsPiece t.case_modes
    → update_target env t s ≡ (ok tt, s')
    → found k s' ≡ (if t.id == k then Option.map (updated t) (found k s) else found k s)
unfolding update_target call
update_target-found env t s s' k pieces h = elim (Option-cases (env.fault s.calls)) [
  | inl fine ↦
      let e : update (λ r. r.id) t.id (set_target t) s.targets ≡ s'.targets =
        ground (arith, fine) in
      rw (← e) (set_target_rows t s.targets k pieces)
  | inr (e, fault) ↦ ground (arith, fault)
]
