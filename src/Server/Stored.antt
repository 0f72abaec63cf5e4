-- ===== src/Server/Stored.antt =====
-- CreateTarget and UpdateTarget of a target that the checks accept keep the stored targets so.
use vanitykeygen.Common.{String, List, [], ◌∷◌, ◌++◌, ◌==◌, All, Bool-cases, inl, inr}
use vanitykeygen.Vkg.{Target, Time}
use vanitykeygen.Runtime.{Env, pure}
use vanitykeygen.Table.{insert, update, has_key}
use vanitykeygen.Store.{Store, TargetRow, call}
use vanitykeygen.Store.Calls.{at_call, begin_cases, Begun, call-eq}
use vanitykeygen.Store.Targets.{
  scan_target, target_row, with_defaults, set_target, insert_target, create_target, update_target,
}
use vanitykeygen.Store.Targets.Roundtrip.{write_target}
use vanitykeygen.Runtime.Laws.{Keeps, bind-Keeps}
use vanitykeygen.Server.Valid.{IsValid, target_row-IsValid, set_target-IsValid}

module _ (env : Env) where
  -- Every target in the table reads back as one that the checks accept.
  abbrev pub AllValid : Store → Type 0
  AllValid s = All (λ r. IsValid env (scan_target r)) s.targets

  All-snoc :
      (rows : List TargetRow) (r : TargetRow)
      → All (λ r. IsValid env (scan_target r)) rows
      → IsValid env (scan_target r)
      → All (λ r. IsValid env (scan_target r)) (rows ++ r ∷ [])
  All-snoc [] r h v = (v, tt)
  All-snoc (x ∷ rows) r (hx, h) v = (hx, All-snoc rows r h v)

  insert_target-Keeps :
      (r : TargetRow) → IsValid env (scan_target r) → Keeps AllValid (insert_target r)
  unfolding insert_target insert
  insert_target-Keeps r v s h =
      elim (Bool-cases (has_key (λ (x : TargetRow). x.id) r.id s.targets)) [
        | inl taken ↦ rw (insert_target, insert, taken) h
        | inr fresh ↦ rw (insert_target, insert, fresh) (All-snoc s.targets r h v)
      ]

  write_target-Keeps :
      (t : Target) (id : String) (c : Time) → IsValid env t → Keeps AllValid (write_target t id c)
  write_target-Keeps t id c v =
      bind-Keeps AllValid (insert_target (target_row (with_defaults t id c)))
        (λ u. pure (with_defaults t id c))
        (insert_target-Keeps (target_row (with_defaults t id c)) (target_row-IsValid env t id c v))
        (λ u s h. h)

  pub create_target-Keeps : (t : Target) → IsValid env t → Keeps AllValid (create_target env t)
  unfolding create_target
  create_target-Keeps t v s h = elim (begin_cases env t.id t.created_at (write_target t) s) [
    | Begun.failed e n out ↦ rw out h
    | Begun.wrote id c n _ _ out ↦ rw out (write_target-Keeps t id c v (at_call s n) h)
  ]

  update-All :
      (t : Target) (rows : List TargetRow)
      → IsValid env t
      → All (λ r. IsValid env (scan_target r)) rows
      → All (λ r. IsValid env (scan_target r)) (update (λ r. r.id) t.id (set_target t) rows)
  unfolding update
  update-All t [] v h = tt
  update-All t (r ∷ rows) v (hr, h) = elim (Bool-cases (r.id == t.id)) [
    | inl this ↦ rw (update, this) (set_target-IsValid env t r v, update-All t rows v h)
    | inr other ↦ rw (update, other) (hr, update-All t rows v h)
  ]

  pub call-Keeps : Keeps AllValid (call env)
  call-Keeps s h = rw (call-eq env s) h

  pub update_target-Keeps : (t : Target) → IsValid env t → Keeps AllValid (update_target env t)
  unfolding update_target
  update_target-Keeps t v =
      bind-Keeps AllValid (call env) _ call-Keeps (λ u s h. update-All t s.targets v h)
