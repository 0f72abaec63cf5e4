-- ===== src/Tests.antt =====
-- A concrete environment and concrete data: every theorem with a hypothesis is applied to them in the
-- modules below, and the operations are run on them.
pub mod StoreTests
pub mod HubTests
pub mod StreamTests
pub mod ServerTests
pub mod ClientTests
pub mod Sorting
pub mod RequestTests
pub mod RunTests
pub mod RaceTests
pub mod WordTests
pub mod RoundtripTests
use Prim.Native.String.{count}
use vanitykeygen.Common.{
  pos, ℕ, zero, suc, ◌+◌, ◌*◌, String, Char, code, Bool, true, false, Option, none, some, List, [],
  ◌∷◌, eqb, ltb, ◌==◌, if◌then◌else◌,
}
use vanitykeygen.Vkg.{Target, Match, ClientInfo}
use vanitykeygen.Runtime.{Env, Outcome, ok, err}
use vanitykeygen.Store.{Store, nanos}
use vanitykeygen.Text

-- the character at the place of `c` in `from`, taken from `to`
abbrev translate : String → String → Char → Char
translate String.[] to c = c
translate (String.◌∷◌ f from) String.[] c = c
translate (String.◌∷◌ f from) (String.◌∷◌ t to) c =
    let rest = translate from to c in if eqb (code f) (code c) then t else rest

abbrev lower_case : String
lower_case = "abcdefghijklmnopqrstuvwxyz"

abbrev upper_case : String
upper_case = "ABCDEFGHIJKLMNOPQRSTUVWXYZ"

-- insertion, the greatest key first
abbrev pub place : (A : Type 0) → (A → ℕ) → A → List A → List A
place A key x [] = x ∷ []
place A key x (y ∷ ys) =
    let rest = place A key x ys in if ltb (key x) (key y) then y ∷ rest else x ∷ y ∷ ys

abbrev pub sort_desc : (A : Type 0) → (A → ℕ) → List A → List A
sort_desc A key [] = []
sort_desc A key (x ∷ xs) = place A key x (sort_desc A key xs)

-- Nothing fails; the clock ticks a second with every call, and the random bytes count the calls.
-- An expression matches a text that contains it, and "[" does not compile.
abbrev pub quiet : Env
quiet = record {
  fault = λ n. none;
  random = λ n. ok (0 ∷ 0 ∷ 0 ∷ 0 ∷ 0 ∷ 0 ∷ 1 ∷ n ∷ []);
  now = λ n. (1000 + n) * nanos;
  order_by_desc = sort_desc;
  marshal = λ p. some "{}";
  float_add = λ a b. a + b;
  quote = λ s. s;
  upper = translate lower_case upper_case;
  lower = translate upper_case lower_case;
  syntax_error = λ p. if p == "[" then some "missing closing ]" else none;
  re_match = λ p s. Text.contains s p;
  re_find = λ p s. if Text.contains s p then p else "";
}

-- The same, but every call of the database fails.
abbrev pub broken : Env
broken = record quiet { fault = λ n. some "disk I/O error" }

abbrev pub word_target : Target
word_target = record {
  id = "";
  type = "word";
  pattern = "nugget";
  label = "first";
  active = true;
  case_modes = "insensitive" ∷ "capitalized" ∷ [];
  match_scope = "";
  created_at = 0;
}

abbrev pub regex_target : Target
regex_target = record {
  id = "7";
  type = "regex";
  pattern = "gt3";
  label = "second";
  active = true;
  case_modes = [];
  match_scope = "pubkey";
  created_at = 5;
}

abbrev pub hit : Match
hit = record {
  id = "";
  target_id = "";
  client_id = "c1";
  timestamp = 0;
  hostname = "forge";
  seeker_id = 3;
  match_string = "Nugget";
  matched_authorized_key = false;
  matched_fingerprint = true;
  key = record {
    private_key = 1 ∷ 2 ∷ [];
    public_key = 3 ∷ [];
    encoded_key = 4 ∷ [];
    private_string = "PEM";
    authorized_string = "ssh-ed25519 AAAA";
    fingerprint = "xyz/Nugget";
  };
}

abbrev pub client : ClientInfo
client = record {
  id = "c1";
  hostname = "forge";
  version = "dev";
  seekers = pos 4;
  key_rate = 0;
  key_count = 10;
  last_seen = 0;
  status = "active";
}
