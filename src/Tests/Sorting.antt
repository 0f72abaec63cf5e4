-- ===== src/Tests/Sorting.antt =====
-- The order of the concrete environment is one that ORDER BY may give.
use mathlib.Core.List.{Permᴰ}
use mathlib.Core.List.Permᴰ
use vanitykeygen.Common.{ℕ, List, [], ◌∷◌, ltb, refl, Bool-cases, inl, inr}
use vanitykeygen.Runtime.Order.{Sorts}
use vanitykeygen.Tests.{quiet, place, sort_desc}

place-Permᴰ : (A : Type 0) (key : A → ℕ) (x : A) (xs : List A) → Permᴰ (place A key x xs) (x ∷ xs)
place-Permᴰ A key x [] = Permᴰ.refl (x ∷ [])
place-Permᴰ A key x (y ∷ ys) = elim (Bool-cases (ltb (key x) (key y))) [
  | inl later ↦
      rw (place, later)
        (Permᴰ.trans (Permᴰ.cons refl (place-Permᴰ A key x ys)) (Permᴰ.swap refl refl))
  | inr here ↦ rw (place, here) (Permᴰ.refl (x ∷ y ∷ ys))
]

sort_desc-Permᴰ : (A : Type 0) (key : A → ℕ) (xs : List A) → Permᴰ (sort_desc A key xs) xs
sort_desc-Permᴰ A key [] = Permᴰ.nil
sort_desc-Permᴰ A key (x ∷ xs) =
    Permᴰ.trans (place-Permᴰ A key x (sort_desc A key xs))
      (Permᴰ.cons refl (sort_desc-Permᴰ A key xs))

pub quiet-Sorts : Sorts quiet
quiet-Sorts = record { perm = λ A key rows. ∣ sort_desc-Permᴰ A key rows ∣₁ }
