-- ===== src/Dedup.antt =====
-- The distinct elements of a list, each where it first stands, by a Boolean equality.
use vanitykeygen.Common.{
  Bool, true, not, ◌&&◌, List, [], ◌∷◌, ◌++◌, ◌≡◌, refl, ◌↔◌, if◌then◌else◌, filter, any, arith,
}

module _ {A : Type 0} where
  pub filter-concat :
      (p : A → Bool) (xs : List A) (x : A)
      → filter p (xs ++ x ∷ []) ≡ (if p x then filter p xs ++ x ∷ [] else filter p xs)
  filter-concat p [] x = ground arith
  filter-concat p (y ∷ ys) x = ground (arith, filter-concat p ys x)

module _ {A : Type 0} (eq : A → A → Bool) where
  abbrev pub member : A → List A → Bool
  member x xs = any (λ y. eq y x) xs

  abbrev pub dedup : List A → List A
  dedup [] = []
  dedup (x ∷ xs) = x ∷ filter (λ y. not (eq x y)) (dedup xs)

module _ {A : Type 0} (eq : A → A → Bool) (lawful : (a b : A) → (eq a b ≡ true) ↔ (a ≡ b)) where
  pub dedup-concat :
      (xs : List A) (x : A)
      → dedup eq (xs ++ x ∷ []) ≡ (if member eq x xs then dedup eq xs else dedup eq xs ++ x ∷ [])
  dedup-concat [] x = refl
  dedup-concat (y ∷ ys) x =
      rw (dedup-concat ys x) (ground (arith, filter-concat (λ z. not (eq y z)) (dedup eq ys) x))

  member-filter :
      (x y : A) (zs : List A)
      → member eq x (filter (λ z. not (eq y z)) zs) ≡ (not (eq y x) && member eq x zs)
  member-filter x y [] = ground arith
  member-filter x y (z ∷ zs) =
      ground (arith, member-filter x y zs, lawful z x, lawful y z, lawful y x)

  -- The same elements.
  pub member-dedup : (x : A) (xs : List A) → member eq x (dedup eq xs) ≡ member eq x xs
  member-dedup x [] = refl
  member-dedup x (y ∷ ys) = ground (arith, member-filter x y (dedup eq ys), member-dedup x ys)
