-- ===== src/Table.antt =====
-- The SQL statements of pkg/store/store.go, over a table that is the list of its rows, with the
-- primary key `key`: INSERT, INSERT … ON CONFLICT DO UPDATE, SELECT, UPDATE and DELETE.
pub mod Laws
pub mod Keys
use vanitykeygen.Common.{
  ℕ, ◌≤◌, String, Bool, not, Option, none, some, List, [], ◌∷◌, ◌++◌, map, ◌==◌, if◌then◌else◌,
  filter, count, find, any,
}

module _ {A : Type 0} (key : A → String) where
  -- SELECT … WHERE key = k
  unfoldable pub lookup : String → List A → Option A
  lookup k rows = find (λ r. key r == k) rows

  unfoldable pub has_key : String → List A → Bool
  has_key k rows = any (λ r. key r == k) rows

  -- INSERT; `none` is a primary key that is taken
  unfoldable pub insert : A → List A → Option (List A)
  insert r rows = if has_key (key r) rows then none else some (rows ++ r ∷ [])

  -- UPDATE … WHERE key = k
  unfoldable pub update : String → (A → A) → List A → List A
  update k f rows = map (λ r. if key r == k then f r else r) rows

  -- INSERT … ON CONFLICT(key) DO UPDATE
  unfoldable pub upsert : A → List A → List A
  upsert r rows = if has_key (key r) rows then update (key r) (λ _. r) rows else rows ++ r ∷ []

  -- the primary key: no two rows have the same
  pub record IsKeyed (rows : List A) : Type 0 where
    pub once : (k : String) → count (λ r. key r == k) rows ≤ 1

module _ {A : Type 0} where
  -- DELETE … WHERE test
  unfoldable pub delete_where : (A → Bool) → List A → List A
  delete_where test rows = filter (λ r. not (test r)) rows

  -- UPDATE … WHERE test
  unfoldable pub update_where : (A → Bool) → (A → A) → List A → List A
  update_where test f rows = map (λ r. if test r then f r else r) rows
