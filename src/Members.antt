-- ===== src/Members.antt =====
-- Where the members of a list that was made from another come from.
use mathlib.Core.List.{Memᴰ}
use mathlib.Core.List.Memᴰ
use vanitykeygen.Common.{
  Bool, true, false, not, List, [], ◌∷◌, ◌≡◌, refl, ap, subst, ◌∙◌, map, filter, any, arith,
  Bool-cases, inl, inr,
}
use vanitykeygen.Dedup.{dedup}

module _ {A : Type 0} where
  pub in_filter :
      (p : A → Bool) (x : A) (xs : List A) → Memᴰ x (filter p xs) → Memᴰ x xs × (p x ≡ true)
  in_filter p x [] mem = absurd (Memᴰ.not-nil mem)
  in_filter p x (y ∷ ys) mem = elim (Bool-cases (p y)) [
    | inr fails ↦
        let (there, holds) = in_filter p x ys (subst (Memᴰ x) (dropped p y ys fails) mem) in
        (Memᴰ.tail there, holds)
    | inl passes ↦ elim (Memᴰ.cases_cons (subst (Memᴰ x) (kept p y ys passes) mem)) [
      | inl here ↦ (Memᴰ.head here, ap p here ∙ passes)
      | inr later ↦ let (there, holds) = in_filter p x ys later in (Memᴰ.tail there, holds)
    ]
  ]
    where
      dropped : (p : A → Bool) (y : A) (ys : List A) → p y ≡ false → filter p (y ∷ ys) ≡ filter p ys
      dropped p y ys e = rw e refl

      kept : (p : A → Bool) (y : A) (ys : List A) → p y ≡ true → filter p (y ∷ ys) ≡ y ∷ filter p ys
      kept p y ys e = rw e refl

  pub in_dedup : (eq : A → A → Bool) (x : A) (xs : List A) → Memᴰ x (dedup eq xs) → Memᴰ x xs
  in_dedup eq x [] mem = absurd (Memᴰ.not-nil mem)
  in_dedup eq x (y ∷ ys) mem = elim (Memᴰ.cases_cons mem) [
    | inl here ↦ Memᴰ.head here
    | inr later ↦
        Memᴰ.tail (in_dedup eq x ys (in_filter (λ z. not (eq y z)) x (dedup eq ys) later).0)
  ]

  pub any_of :
      (test : A → Bool) (x : A) (xs : List A) → Memᴰ x xs → test x ≡ true → any test xs ≡ true
  any_of test x xs (Memᴰ.head e) h = ground (arith, ap test e, h)
  any_of test x xs (Memᴰ.tail mem) h = ground (arith, any_of test x _ mem h)

module _ {A B : Type 0} where
  pub in_map :
      (f : A → B) (y : B) (xs : List A) → Memᴰ y (map f xs) → (x : A) × Memᴰ x xs × (y ≡ f x)
  in_map f y [] mem = absurd (Memᴰ.not-nil mem)
  in_map f y (x ∷ xs) mem = elim (Memᴰ.cases_cons mem) [
    | inl here ↦ (x, Memᴰ.head refl, here)
    | inr later ↦ let (z, there, e) = in_map f y xs later in (z, Memᴰ.tail there, e)
  ]
