-- ===== src/Store/Ids.antt =====
-- vkg.NewID as the store calls it: the IDs are 16 hexadecimal digits, and as different as the random bytes.
use Prim.Native.String.{count}
use vanitykeygen.Common.{ℕ, String, length, All, ◌≡◌, sym, ap, ◌∙◌, arith, inl, inr}
use vanitykeygen.Vkg.{Bytes}
use vanitykeygen.Vkg.Id.{hex, count-hex, hex_injective, IsByte}
use vanitykeygen.Runtime.{Env, ok}
use vanitykeygen.Store.{Store, new_id}
use vanitykeygen.Store.Calls.{Outcome-cases}

-- What crypto/rand documents of a Read into 8 bytes that returns no error.
pub record Fills (env : Env) : Type 0 where
  pub bytes : (n : ℕ) (b : Bytes) → env.random n ≡ ok b → (length b ≡ 8) × All IsByte b

module _ (env : Env) (fills : Fills env) where
  new_id-hex :
      (s s' : Store) (id : String)
      → new_id env s ≡ (ok id, s')
      → (b : Bytes) × (env.random s.calls ≡ ok b) × (hex b ≡ id)
  unfolding new_id
  new_id-hex s s' id h = elim (Outcome-cases (env.random s.calls)) [
    | inr (e, failed) ↦ ground (arith, failed)
    | inl (b, read) ↦ (b, read, ground (arith, read))
  ]

  -- If rand.Read fills its 8 bytes, an ID of NewID has 16 characters, and two calls of NewID return
  -- the same ID only if they read the same bytes.
  pub new_id-distinct :
      (s s' t t' : Store) (x y : String)
      → new_id env s ≡ (ok x, s')
      → new_id env t ≡ (ok y, t')
      → (count x ≡ 16) × (x ≡ y → env.random s.calls ≡ env.random t.calls)
  new_id-distinct s s' t t' x y hx hy =
      let (b, read_b, is_x) = new_id-hex s s' x hx in
      let (c, read_c, is_y) = new_id-hex t t' y hy in
      let (length_b, bytes_b) = fills.bytes s.calls b read_b in
      let (length_c, bytes_c) = fills.bytes t.calls c read_c in
      (
        ap count (sym is_x) ∙ (count-hex b ∙ omega (arith, length_b)),
        λ same.
            let alike : b ≡ c = hex_injective b c bytes_b bytes_c (is_x ∙ same ∙ sym is_y) in
            read_b ∙ ap (λ l. ok l) alike ∙ sym read_c,
      )
