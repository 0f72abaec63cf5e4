-- ===== src/Client/Attributed.antt =====
-- From a seeker to the server: a match that a seeker finds for an active target is attributed.
pub mod Words
pub mod Served
use mathlib.Core.List.{Memᴰ}
use vanitykeygen.Common.{
  String, Bool, true, false, false≢true, ◌&&◌, ◌||◌, none, List, [], ◌∷◌, ◌≡◌, refl, sym, ap, ◌∙◌,
  arith, Bool-cases, inl, inr, ◌==◌,
}
use vanitykeygen.Vkg.{Target, Match}
use vanitykeygen.Runtime.{Env}
use vanitykeygen.Server.Compile.{regex_pattern, normalize_scope, tests_fingerprint, tests_pubkey}
use vanitykeygen.Server.Attribution.{Cache, attribute}
use vanitykeygen.Server.Attribution.Reference.{
  claims, regex_claims, IsFresh, first_claim, attribute-eq-first_claim,
}
use vanitykeygen.Client.Seeker.{SeekerStatus, Turn}
use vanitykeygen.Client.Reports.{FromTurn}
use vanitykeygen.Client.{Net, Client, match_of}

-- One of the targets, which claims the match, has the ID.
abbrev pub NamesClaimant : Env → Match → List Target → String → Type 0
NamesClaimant env m ts id = (t : Target) × Memᴰ t ts × (claims env m t ≡ true) × (id ≡ t.id)

-- Flags that say where a test in its scope succeeded are consistent with testing again.
in_scopes :
    (a b x y f g : Bool)
    → f ≡ (a && x)
    → g ≡ (b && y)
    → (f || g) ≡ true
    → (a && f && x || b && g && y) ≡ true
in_scopes a b x y f g hf hg one = ground arith

module _ (env : Env) where
  later :
      (m : Match) (u : Target) (ts : List Target) (t : Target)
      → Memᴰ t (u ∷ ts)
      → claims env m t ≡ true
      → claims env m u ≡ false
      → Memᴰ t ts
  later m u ts t (Memᴰ.head e) h miss =
      absurd (false≢true (sym miss ∙ ap (claims env m) (sym e) ∙ h))
  later m u ts t (Memᴰ.tail mem) h miss = mem

  pub first_claim-NamesClaimant :
      (m : Match) (ts : List Target) (t : Target)
      → Memᴰ t ts
      → claims env m t ≡ true
      → NamesClaimant env m ts (first_claim env m ts)
  first_claim-NamesClaimant m [] t mem h = elim mem [ ]
  first_claim-NamesClaimant m (u ∷ ts) t mem h = elim (Bool-cases (claims env m u)) [
    | inl hit ↦ rw (first_claim, hit) (u, Memᴰ.head refl, hit, refl)
    | inr miss ↦
        let (v, there, claimed, named) =
          first_claim-NamesClaimant m ts t (later m u ts t mem h miss) h in
        rw (first_claim, miss) (v, Memᴰ.tail there, claimed, named)
  ]

  pub regex-claims :
      (net : Net) (c : Client) (turn : Turn) (s : SeekerStatus) (t : Target)
      → (from : FromTurn env turn s) → (t.type == "word") ≡ false
      → env.syntax_error t.pattern ≡ none
      → from.pattern ≡ regex_pattern t
      → claims env (match_of net s c) t ≡ true
  unfolding claims match_of regex_pattern
  regex-claims net c turn s t from regex fine same =
      let fp =
        from.fingerprint
        ∙ ap (λ p. p.match_fingerprint && env.re_match p.pattern s.key.fingerprint) same in
      let ak =
        from.authorized_key
        ∙ ap (λ p. p.match_authorized_key && env.re_match p.pattern s.key.authorized_key) same in
      let scope = normalize_scope t.match_scope in
      rw (regex, regex_claims, fine)
        (in_scopes (tests_fingerprint scope) (tests_pubkey scope)
          (env.re_match t.pattern s.key.fingerprint) (env.re_match t.pattern s.key.authorized_key)
          s.matched_fingerprint s.matched_authorized_key fp ak from.one)

  -- The match that reportMatch posts for a status whose key was generated in a turn and matches the
  -- pattern of an active regex target in the scopes that it names is attributed to one of the
  -- active targets, which claims it, if the target's expression compiles and every entry of the
  -- server's cache is what its pattern compiles to.
  pub reported_match-IsAttributed :
      (net : Net) (c : Client) (turn : Turn) (s : SeekerStatus) (ts : List Target) (t : Target)
      (cache : Cache) (from : FromTurn env turn s)
      → Memᴰ t ts
      → (t.type == "word") ≡ false
      → env.syntax_error t.pattern ≡ none
      → from.pattern ≡ regex_pattern t
      → IsFresh env cache
      → NamesClaimant env (match_of net s c) ts ((attribute env (match_of net s c) ts cache).0)
  reported_match-IsAttributed net c turn s ts t cache from active regex fine same fresh =
      let m = match_of net s c in
      let claimed = regex-claims net c turn s t from regex fine same in
      let (u, mem, hit, named) = first_claim-NamesClaimant m ts t active claimed in
      (u, mem, hit, (attribute-eq-first_claim env m ts cache fresh).0 ∙ named)
