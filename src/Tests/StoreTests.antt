-- ===== src/Tests/StoreTests.antt =====
-- Runs of the store, and its theorems at concrete inputs.
use vanitykeygen.Common.{
  ℕ, suc, String, Bool, some, [], ◌∷◌, ◌==◌, eq_iff, ◌≡◌, refl, ◌⊎◌, arith, if◌then◌else◌,
}
use mathlib.Core.Option
use vanitykeygen.Vkg.{Target}
use vanitykeygen.Runtime.{ok, err}
use vanitykeygen.Table.{insert, has_key}
use vanitykeygen.Store.{Store, empty_store, call, id_or_new, time_or_now}
use vanitykeygen.Store.Calls.{at_call}
use vanitykeygen.Store.Targets.{create_target, update_target, delete_target}
use vanitykeygen.Store.Targets.Roundtrip.{
  found, whole_seconds, updated, IsPiece, create_target-found, update_target-found,
}
use vanitykeygen.Store.Targets.Cascade.{IsDeleted, delete_target_outcome}
use vanitykeygen.Tests.{quiet, regex_target}

-- one target, created
abbrev one_target : Store
one_target = (create_target quiet regex_target empty_store).1

abbrev created : Target
created = record regex_target { case_modes = "insensitive" ∷ [] }

create_regex : create_target quiet regex_target empty_store ≡ (ok created, one_target)
unfolding create_target call id_or_new time_or_now insert has_key
create_regex = refl

create_target-found_example :
    found "7" one_target
    ≡ (if created.id == "7" then some (whole_seconds created) else found "7" empty_store)
create_target-found_example =
    create_target-found quiet regex_target created empty_store one_target "7" tt create_regex

abbrev renamed : Target
renamed = record created { label = "renamed"; case_modes = "sensitive" ∷ [] }

sensitive-IsPiece : IsPiece "sensitive"
sensitive-IsPiece = (ground (arith, eq_iff "sensitive" ""), ground arith)

update_runs :
    update_target quiet renamed one_target ≡ (ok tt, (update_target quiet renamed one_target).1)
unfolding update_target call
update_runs = refl

update_target-found_example : found "7" (update_target quiet renamed one_target).1 ≡ (
    if renamed.id == "7"
    then Option.map (updated renamed) (found "7" one_target)
    else found "7" one_target)
update_target-found_example =
    update_target-found quiet renamed one_target (update_target quiet renamed one_target).1 "7"
      (sensitive-IsPiece, tt) update_runs

delete_target_outcome_example :
    ((n : ℕ) × (gone : Bool) × (s' : Store) × (delete_target quiet "7" one_target
        ≡ (ok (n, gone), s'))
      × IsDeleted "7" one_target s' n gone)
    ⊎ ((e : String) × (n : ℕ) × (quiet.fault n ≡ some e)
        × (delete_target quiet "7" one_target ≡ (err e, at_call one_target (suc n))))
delete_target_outcome_example = delete_target_outcome quiet "7" one_target
