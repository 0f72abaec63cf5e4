-- ===== src/Server/Lists.antt =====
-- pkg/server: `?limit=` and the lists that are answered.
use vanitykeygen.Common.{
  ℕ, zero, suc, ◌≤◌, ◌<◌, ◌^◌, String, List, [], ◌∷◌, map, take, length, length-take, ltb, eqb,
  code, none, some, Option, ◌≡◌, refl, ap, arith, ◌==◌, ℤ, pos, negsuc, Bool-cases, inl, inr,
}
use vanitykeygen.Runtime.{Env}
use vanitykeygen.Store.Calls.{call_cases}
use vanitykeygen.Store.Targets.{list_targets}
use vanitykeygen.Store.Matches.{list_matches, clamp_limit, scan_match}
use vanitykeygen.Store.Clients.{list_clients}
use vanitykeygen.Server.{Server, Reply, reply, Body, serve}
use vanitykeygen.Server.Compile.{Config}
use vanitykeygen.Server.Limit.{atoi, digits, in_range, negated, positive_or, parse_limit}
use vanitykeygen.Server.TargetRoutes.{handle_list_targets}
use vanitykeygen.Server.MatchRoutes.{handle_list_matches}
use vanitykeygen.Server.ClientRoutes.{handle_list_clients}
use vanitykeygen.Server.Requests.{Request, route}

-- a Go int
abbrev FitsInt : Option ℤ → Type 0
FitsInt none = Unit
FitsInt (some (pos n)) = n < 2 ^ 63
FitsInt (some (negsuc n)) = n < 2 ^ 63

in_range-FitsInt : (o : Option ℕ) → FitsInt (in_range o)
in_range-FitsInt none = tt
in_range-FitsInt (some n) = elim (Bool-cases (ltb n (2 ^ 63))) [
  | inl fits ↦ rw fits (ground (arith, fits))
  | inr over ↦ rw over tt
]

negated-FitsInt : (o : Option ℕ) → FitsInt (negated o)
negated-FitsInt none = tt
negated-FitsInt (some zero) = omega arith
negated-FitsInt (some (suc n)) = elim (Bool-cases (ltb n (2 ^ 63))) [
  | inl fits ↦ rw fits (ground (arith, fits))
  | inr over ↦ rw over tt
]

atoi-FitsInt : (s : String) → FitsInt (atoi s)
unfolding atoi digits
atoi-FitsInt String.[] = tt
atoi-FitsInt (String.◌∷◌ c s) = elim (Bool-cases (eqb (code c) b'-')) [
  | inl minus ↦ rw minus (negated-FitsInt (digits s))
  | inr unsigned ↦ elim (Bool-cases (eqb (code c) b'+')) [
    | inl plus ↦ rw (unsigned, plus) (in_range-FitsInt (digits s))
    | inr digit ↦ rw (unsigned, digit) (in_range-FitsInt (digits (String.◌∷◌ c s)))
  ]
]

positive_or-bounds :
    (fallback : ℕ) (o : Option ℤ)
    → 0 < fallback
    → fallback < 2 ^ 63
    → FitsInt o
    → (0 < positive_or fallback o) × (positive_or fallback o < 2 ^ 63)
positive_or-bounds fallback none p b f = (p, b)
positive_or-bounds fallback (some (pos zero)) p b f = (p, b)
positive_or-bounds fallback (some (pos (suc n))) p b f = (omega arith, f)
positive_or-bounds fallback (some (negsuc n)) p b f = (p, b)

pub parse_limit-bounds :
    (v : String) (fallback : ℕ)
    → 0 < fallback
    → fallback < 2 ^ 63
    → (0 < parse_limit v fallback) × (parse_limit v fallback < 2 ^ 63)
unfolding parse_limit
parse_limit-bounds v fallback p b = elim (Bool-cases (v == "")) [
  | inl absent ↦ rw absent (p, b)
  | inr given ↦ rw given (positive_or-bounds fallback (atoi v) p b (atoi-FitsInt v))
]

clamp_limit-pos : (n : ℕ) → 0 < n → clamp_limit (pos n) ≡ n
unfolding clamp_limit
clamp_limit-pos zero h = absurd (omega arith)
clamp_limit-pos (suc n) h = refl

length-map : {A B : Type 0} (f : A → B) (xs : List A) → length (map f xs) ≡ length xs
length-map f [] = refl
length-map f (x ∷ xs) = ap suc (length-map f xs)

take_bounded : {A : Type 0} (n : ℕ) (xs : List A) → length (take n xs) ≤ n
take_bounded n xs = omega (arith, length-take n xs)

-- a reply whose list, where it has one of a table, is at most so long
abbrev pub HasAtMost : ℕ → Reply → Type 0
HasAtMost n (reply status (Body.targets ts)) = length ts ≤ n
HasAtMost n (reply status (Body.matches ms)) = length ms ≤ n
HasAtMost n (reply status (Body.clients cs)) = length cs ≤ n
HasAtMost n _ = Unit

-- The requests for a list of a table, with the value of `?limit=`.
pub data IsListing : Request → String → Type 0 where
  of_targets : (limit : String) → IsListing (Request.list_targets limit) limit
  of_matches : (id limit : String) → IsListing (Request.list_matches id limit) limit
  of_clients : (limit : String) → IsListing (Request.list_clients limit) limit

module _ (env : Env) where
  list_targets-HasAtMost :
      (limit : String) (s : Server)
      → HasAtMost (parse_limit limit 100) (serve (handle_list_targets env limit) s).0
  unfolding handle_list_targets list_targets
  list_targets-HasAtMost limit s = elim (call_cases env s.store) [
    | inl (_, n, _, fine) ↦ rw fine (take_bounded (parse_limit limit 100) _)
    | inr (e, n, failed) ↦ rw failed tt
  ]

  list_clients-HasAtMost :
      (limit : String) (s : Server)
      → HasAtMost (parse_limit limit 100) (serve (handle_list_clients env limit) s).0
  unfolding handle_list_clients list_clients
  list_clients-HasAtMost limit s = elim (call_cases env s.store) [
    | inl (_, n, _, fine) ↦ rw fine (take_bounded (parse_limit limit 100) _)
    | inr (e, n, failed) ↦ rw failed tt
  ]

  list_matches-HasAtMost :
      (id limit : String) (s : Server)
      → HasAtMost (parse_limit limit 100) (serve (handle_list_matches env id limit) s).0
  unfolding handle_list_matches list_matches
  list_matches-HasAtMost id limit s = elim (call_cases env s.store) [
    | inl (_, n, _, fine) ↦
        let positive = (parse_limit-bounds limit 100 (omega arith) (omega arith)).0 in
        rw (fine, clamp_limit-pos (parse_limit limit 100) positive, length-map scan_match)
          (take_bounded (parse_limit limit 100) _)
    | inr (e, n, failed) ↦ rw failed tt
  ]

  route-HasAtMost :
      (config : Config) (r : Request) (limit : String) (s : Server)
      → IsListing r limit
      → HasAtMost (parse_limit limit 100) (serve (route env config r) s).0
  unfolding route
  route-HasAtMost config _ _ s (IsListing.of_targets limit) = list_targets-HasAtMost limit s
  route-HasAtMost config _ _ s (IsListing.of_matches id limit) = list_matches-HasAtMost id limit s
  route-HasAtMost config _ _ s (IsListing.of_clients limit) = list_clients-HasAtMost limit s

  -- For a request for the targets, the matches or the clients, parseLimit of its ?limit= with
  -- fallback 100 is at least 1 and below 2^63, and the reply has at most so many elements, if it is
  -- a list.
  pub serve-HasAtMost :
      (config : Config) (r : Request) (limit : String) (s : Server)
      → IsListing r limit
      → (0 < parse_limit limit 100)
        × (parse_limit limit 100 < 2 ^ 63)
        × HasAtMost (parse_limit limit 100) (serve (route env config r) s).0
  serve-HasAtMost config r limit s listing =
      let (positive, fits) = parse_limit-bounds limit 100 (omega arith) (omega arith) in
      (positive, fits, route-HasAtMost config r limit s listing)
