-- ===== src/Runtime.antt =====
-- What the program takes from Go's runtime, its standard library and SQLite, and the actions that
-- the handlers and the store's methods are.
-- Each call out of the program has a number, counted in the state; `Env` answers it by that number,
-- so that any sequence of failures, random bytes and clock readings is covered.
pub mod Laws
pub mod Order
use vanitykeygen.Common.{ℕ, String, Char, Bool, Option, List}
use vanitykeygen.Vkg.{Bytes, Time, Target, MatchSummary, ClientInfo}

-- What Hub.Broadcast marshals.
pub data Payload : Type 0 where
  target : Target → Payload
  deleted : String → Payload
  matched : MatchSummary → Payload
  client : ClientInfo → Payload

-- A Go result `(A, error)`, and a handler that may return early with a response.
pub data Outcome (E A : Type 0) : Type 0 where
  ok : A → Outcome E A
  err : E → Outcome E A

pub record Env : Type 1 where
  -- the error of the database call with this number, if it fails
  pub fault : ℕ → Option String
  -- rand.Read of 8 bytes, or its error
  pub random : ℕ → Outcome String Bytes
  -- time.Now().UTC()
  pub now : ℕ → Time
  -- SQLite's ORDER BY key DESC; the order of equal keys is its own
  pub order_by_desc : (A : Type 0) → (A → ℕ) → List A → List A
  -- json.Marshal
  pub marshal : Payload → Option String
  -- the sum of two float64, by their bit patterns
  pub float_add : ℕ → ℕ → ℕ
  -- the %q verb of fmt on a text
  pub quote : String → String
  -- unicode.ToUpper, unicode.ToLower
  pub upper : Char → Char
  pub lower : Char → Char
  -- regexp.Compile: the error, if the pattern does not compile
  pub syntax_error : String → Option String
  -- (*Regexp).MatchString and FindString, by the source text of the expression
  pub re_match : String → String → Bool
  pub re_find : String → String → String

abbrev pub Action : Type 0 → Type 0 → Type 0 → Type 0
Action S E A = S → Outcome E A × S

module _ {S E A : Type 0} where
  abbrev pub pure : A → Action S E A
  pure a s = (ok a, s)

  abbrev pub fail : E → Action S E A
  fail e s = (err e, s)

  abbrev pub lift : Outcome E A → Action S E A
  lift r s = (r, s)

  abbrev pub gets : (S → A) → Action S E A
  gets f s = (ok (f s), s)

module _ {S E : Type 0} where
  abbrev pub modify : (S → S) → Action S E (Unit {0})
  modify f s = (ok tt, f s)

module _ {S E A B : Type 0} where
  abbrev pub continue : Outcome E A → (A → Action S E B) → Action S E B
  continue (ok a) next s = next a s
  continue (err e) next s = (err e, s)

  infixl 5 ◌>>=◌ ◌>>◌
  abbrev pub ◌>>=◌ : Action S E A → (A → Action S E B) → Action S E B
  ◌>>=◌ first next s = let (r, after) = first s in continue r next after

  abbrev pub ◌>>◌ : Action S E A → Action S E B → Action S E B
  first >> next = first >>= λ _. next
