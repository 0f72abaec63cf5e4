-- ===== src/Table/Keys.antt =====
-- The primary key of a table stays unique under every statement, and what a DELETE or an UPDATE with
-- a general condition does to the row of a key.
use mathlib.Core.Option
use vanitykeygen.Common.{
  ◌+◌, ◌≤◌, String, Bool, true, false, Option, none, some, List, [], ◌∷◌, ◌++◌, ◌≡◌, refl, sym,
  ◌==◌, eq_iff, arith, if◌then◌else◌, count, Bool-cases, inl, inr,
}
use vanitykeygen.Table.{
  lookup, has_key, insert, update, upsert, delete_where, update_where, IsKeyed,
}

module _ {A : Type 0} where
  -- what a DELETE leaves of the row that a key has
  abbrev pub unless : (A → Bool) → Option A → Option A
  unless test none = none
  unless test (some r) = if test r then none else some r

module _ {A : Type 0} (key : A → String) where
  pub IsKeyed-nil : IsKeyed key []
  IsKeyed-nil = record { once = λ k. omega arith }

  count-concat :
      (k : String) (rows : List A) (r : A)
      → count (λ x. key x == k) (rows ++ r ∷ [])
        ≡ count (λ x. key x == k) rows + (if key r == k then 1 else 0)
  count-concat k [] r = omega arith
  count-concat k (x ∷ rows) r = omega (arith, count-concat k rows r)

  count_of_no_key :
      (k : String) (rows : List A) → has_key key k rows ≡ false → count (λ x. key x == k) rows ≡ 0
  unfolding has_key
  count_of_no_key k [] h = refl
  count_of_no_key k (x ∷ rows) h = ground (arith, count_of_no_key k rows)

  concat-IsKeyed :
      (r : A) (rows : List A)
      → has_key key (key r) rows ≡ false
      → IsKeyed key rows
      → IsKeyed key (rows ++ r ∷ [])
  concat-IsKeyed r rows h keyed = record {
    once = λ k. ground (
      arith,
      count-concat k rows r,
      count_of_no_key (key r) rows h,
      keyed.once k,
      eq_iff (key r) k,
    );
  }

  pub insert-IsKeyed :
      (r : A) (rows rows' : List A)
      → insert key r rows ≡ some rows'
      → IsKeyed key rows
      → IsKeyed key rows'
  unfolding insert
  insert-IsKeyed r rows rows' h keyed = elim (Bool-cases (has_key key (key r) rows)) [
    | inl taken ↦ cc
    | inr free ↦
        let e : rows ++ r ∷ [] ≡ rows' = ground arith in rw (← e) (concat-IsKeyed r rows free keyed)
  ]

  count-update :
      (k j : String) (f : A → A) (rows : List A)
      → ((r : A) → key r ≡ j → key (f r) ≡ key r)
      → count (λ x. key x == k) (update key j f rows) ≡ count (λ x. key x == k) rows
  unfolding update
  count-update k j f [] same = refl
  count-update k j f (x ∷ rows) same =
      ground (arith, count-update k j f rows same, same x, eq_iff (key x) j)

  pub update-IsKeyed :
      (j : String) (f : A → A) (rows : List A)
      → ((r : A) → key r ≡ j → key (f r) ≡ key r)
      → IsKeyed key rows
      → IsKeyed key (update key j f rows)
  update-IsKeyed j f rows same keyed = record {
    once = λ k. omega (arith, count-update k j f rows same, keyed.once k);
  }

  pub upsert-IsKeyed : (r : A) (rows : List A) → IsKeyed key rows → IsKeyed key (upsert key r rows)
  unfolding upsert
  upsert-IsKeyed r rows keyed = elim (Bool-cases (has_key key (key r) rows)) [
    | inl taken ↦ rw taken (update-IsKeyed (key r) (λ _. r) rows (λ x e. sym e) keyed)
    | inr free ↦ rw free (concat-IsKeyed r rows free keyed)
  ]

  count-delete_where-le :
      (k : String) (test : A → Bool) (rows : List A)
      → count (λ x. key x == k) (delete_where test rows) ≤ count (λ x. key x == k) rows
  unfolding delete_where
  count-delete_where-le k test [] = omega arith
  count-delete_where-le k test (x ∷ rows) = ground (arith, count-delete_where-le k test rows)

  pub delete_where-IsKeyed :
      (test : A → Bool) (rows : List A) → IsKeyed key rows → IsKeyed key (delete_where test rows)
  delete_where-IsKeyed test rows keyed = record {
    once = λ k. omega (arith, count-delete_where-le k test rows, keyed.once k);
  }

  count-update_where :
      (k : String) (test : A → Bool) (f : A → A) (rows : List A)
      → ((r : A) → key (f r) ≡ key r)
      → count (λ x. key x == k) (update_where test f rows) ≡ count (λ x. key x == k) rows
  unfolding update_where
  count-update_where k test f [] same = refl
  count-update_where k test f (x ∷ rows) same =
      ground (arith, count-update_where k test f rows same, same x)

  pub update_where-IsKeyed :
      (test : A → Bool) (f : A → A) (rows : List A)
      → ((r : A) → key (f r) ≡ key r)
      → IsKeyed key rows
      → IsKeyed key (update_where test f rows)
  update_where-IsKeyed test f rows same keyed = record {
    once = λ k. omega (arith, count-update_where k test f rows same, keyed.once k);
  }

  no_key_of_once :
      (k : String) (x : A) (rows : List A)
      → count (λ r. key r == k) (x ∷ rows) ≤ 1
      → (key x == k) ≡ true
      → has_key key k rows ≡ false
  unfolding has_key
  no_key_of_once k x [] h e = refl
  no_key_of_once k x (y ∷ rows) h e = ground (arith, no_key_of_once k x rows)

  lookup_of_no_key :
      (k : String) (rows : List A) → has_key key k rows ≡ false → lookup key k rows ≡ none
  unfolding lookup has_key
  lookup_of_no_key k [] h = refl
  lookup_of_no_key k (x ∷ rows) h = ground (arith, lookup_of_no_key k rows)

  lookup-delete_once :
      (k : String) (test : A → Bool) (rows : List A)
      → count (λ r. key r == k) rows ≤ 1
      → lookup key k (delete_where test rows) ≡ unless test (lookup key k rows)
  unfolding lookup delete_where
  lookup-delete_once k test [] h = refl
  lookup-delete_once k test (x ∷ rows) h =
      ground
        (arith, lookup-delete_once k test rows, no_key_of_once k x rows h, lookup_of_no_key k rows)

  -- The row of a key after a DELETE: the row that it had, unless that passes the test.
  pub lookup-delete_where :
      (k : String) (test : A → Bool) (rows : List A)
      → IsKeyed key rows
      → lookup key k (delete_where test rows) ≡ unless test (lookup key k rows)
  lookup-delete_where k test rows keyed = lookup-delete_once k test rows (keyed.once k)

  -- The row of a key after an UPDATE of the rows that pass a test.
  pub lookup-update_where :
      (k : String) (test : A → Bool) (f : A → A) (rows : List A)
      → ((r : A) → key (f r) ≡ key r)
      → lookup key k (update_where test f rows)
        ≡ Option.map (λ r. if test r then f r else r) (lookup key k rows)
  unfolding lookup update_where
  lookup-update_where k test f [] same = refl
  lookup-update_where k test f (x ∷ rows) same =
      ground (arith, lookup-update_where k test f rows same, same x)
