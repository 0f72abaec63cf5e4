-- ===== src/Runtime/Order.antt =====
-- What ORDER BY gives: the same rows in some order.
use mathlib.Core.Logic.{∥∥₁_elim}
use mathlib.Core.Bool.{Bool-set}
use mathlib.Core.List.{Perm, Permᴰ}
use native.Mathlib.Nat.{ℕ_set}
use vanitykeygen.Common.{ℕ, suc, Bool, List, length, any, ◌≡◌, refl, ap, ◌∙◌, arith}
use vanitykeygen.Runtime.{Env}

-- The statement that SQLite's documentation makes of ORDER BY: it arranges the rows of the result.
pub record Sorts (env : Env) : Type 1 where
  pub perm : (A : Type 0) (key : A → ℕ) (rows : List A) → Perm (env.order_by_desc A key rows) rows

module _ {A : Type 0} where
  length-Permᴰ : {a b : List A} → Permᴰ a b → length a ≡ length b
  length-Permᴰ Permᴰ.nil = refl
  length-Permᴰ (Permᴰ.cons e p) = ap suc (length-Permᴰ p)
  length-Permᴰ (Permᴰ.swap e f) = refl
  length-Permᴰ (Permᴰ.trans p q) = length-Permᴰ p ∙ length-Permᴰ q

  any-Permᴰ : (test : A → Bool) {a b : List A} → Permᴰ a b → any test a ≡ any test b
  any-Permᴰ test Permᴰ.nil = refl
  any-Permᴰ test (Permᴰ.cons e p) = rw (ap test e, any-Permᴰ test p)
  any-Permᴰ test (Permᴰ.swap e f) = ground (arith, ap test e, ap test f)
  any-Permᴰ test (Permᴰ.trans p q) = any-Permᴰ test p ∙ any-Permᴰ test q

  pub length-Perm : {a b : List A} → Perm a b → length a ≡ length b
  length-Perm p = ∥∥₁_elim p (ℕ_set _ _) length-Permᴰ

  pub any-Perm : (test : A → Bool) {a b : List A} → Perm a b → any test a ≡ any test b
  any-Perm test p = ∥∥₁_elim p (Bool-set _ _) (any-Permᴰ test)
