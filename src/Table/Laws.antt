-- ===== src/Table/Laws.antt =====
-- The statements on a table, seen as a finite map from the primary key to the row.
use mathlib.Core.Option
use vanitykeygen.Common.{
  ltb, String, Bool, true, false, Option, none, some, List, [], ◌∷◌, ◌++◌, ◌≡◌, refl, ◌==◌, eq_iff,
  arith, if◌then◌else◌, count,
}
use vanitykeygen.Table.{lookup, has_key, insert, update, upsert, delete_where}

abbrev pub is_some : {A : Type 0} → Option A → Bool
is_some none = false
is_some (some a) = true

module _ {A : Type 0} (key : A → String) where
  lookup-concat :
      (k : String) (rows : List A) (r : A)
      → has_key key (key r) rows ≡ false
      → lookup key k (rows ++ r ∷ []) ≡ (if key r == k then some r else lookup key k rows)
  unfolding lookup has_key
  lookup-concat k [] r h = refl
  lookup-concat k (x ∷ rows) r h =
      ground
        (arith, lookup-concat k rows r, eq_iff (key x) k, eq_iff (key r) k, eq_iff (key x) (key r))

  pub lookup-insert :
      (k : String) (rows rows' : List A) (r : A)
      → insert key r rows ≡ some rows'
      → lookup key k rows' ≡ (if key r == k then some r else lookup key k rows)
  unfolding insert
  lookup-insert k rows rows' r h = ground (arith, lookup-concat k rows r)

  pub lookup-update :
      (k j : String) (f : A → A) (rows : List A)
      → ((r : A) → key (f r) ≡ key r)
      → lookup key k (update key j f rows)
        ≡ (if j == k then Option.map f (lookup key k rows) else lookup key k rows)
  unfolding lookup update
  lookup-update k j f [] same = ground arith
  lookup-update k j f (x ∷ rows) same = ground (
    arith,
    lookup-update k j f rows same,
    same x,
    eq_iff (key x) k,
    eq_iff (key x) j,
    eq_iff j k,
    eq_iff (key (f x)) k,
  )

  lookup-replace :
      (k : String) (r : A) (rows : List A)
      → lookup key k (update key (key r) (λ _. r) rows) ≡ (
          if key r == k
          then (if has_key key (key r) rows then some r else none)
          else lookup key k rows)
  unfolding lookup update has_key
  lookup-replace k r [] = ground arith
  lookup-replace k r (x ∷ rows) =
      ground
        (arith, lookup-replace k r rows, eq_iff (key x) k, eq_iff (key x) (key r), eq_iff (key r) k)

  pub lookup-upsert :
      (k : String) (r : A) (rows : List A)
      → lookup key k (upsert key r rows) ≡ (if key r == k then some r else lookup key k rows)
  unfolding upsert
  lookup-upsert k r rows = ground (arith, lookup-replace k r rows, lookup-concat k rows r)

  pub lookup-delete :
      (k j : String) (rows : List A)
      → lookup key k (delete_where (λ r. key r == j) rows)
        ≡ (if j == k then none else lookup key k rows)
  unfolding lookup delete_where
  lookup-delete k j [] = ground arith
  lookup-delete k j (x ∷ rows) =
      ground (arith, lookup-delete k j rows, eq_iff (key x) k, eq_iff (key x) j, eq_iff j k)

  -- How many rows have a key after the rows of one key are deleted.
  pub count-delete :
      (k j : String) (rows : List A)
      → count (λ r. key r == k) (delete_where (λ r. key r == j) rows)
        ≡ (if j == k then 0 else count (λ r. key r == k) rows)
  unfolding delete_where
  count-delete k j [] = ground arith
  count-delete k j (x ∷ rows) =
      ground (arith, count-delete k j rows, eq_iff (key x) k, eq_iff (key x) j, eq_iff j k)

  -- A key is counted exactly when it has a row.
  pub count-pos-lookup :
      (k : String) (rows : List A)
      → ltb 0 (count (λ r. key r == k) rows) ≡ is_some (lookup key k rows)
  unfolding lookup
  count-pos-lookup k [] = refl
  count-pos-lookup k (x ∷ rows) = ground (arith, count-pos-lookup k rows)
