-- ===== src/Client/Attributed/Served.antt =====
-- From a seeker to the server: whatever served pattern a key matches, the match is attributed.
use mathlib.Core.List.{Memᴰ}
use mathlib.Core.List.Memᴰ
use vanitykeygen.Common.{
  String, Bool, true, false, not, ◌&&◌, none, List, map, filter, ◌≡◌, refl, sym, ap, subst, ◌∙◌,
  arith, Bool-cases, inl, inr,
}
use vanitykeygen.Members.{in_filter, in_map, any_of}
use vanitykeygen.Vkg.{Target, Match, CompiledPattern}
use vanitykeygen.Runtime.{Env}
use vanitykeygen.Server.Compile.{
  Config, WordKey, normalize_scope, tests_fingerprint, tests_pubkey, modes_of, group_pattern,
  regex_pattern, compile_patterns,
}
use vanitykeygen.Server.Compile.Reference.{
  is_word, keys_of, words_of, all_words, reference, compile_patterns-eq-reference,
}
use vanitykeygen.Server.Attribution.{contains_word, Cache, attribute}
use vanitykeygen.Server.Attribution.Reference.{
  claims, mode_claims, in_scope, IsFresh, attribute-eq-first_claim,
}
use vanitykeygen.Client.Seeker.{SeekerStatus, Turn}
use vanitykeygen.Client.Reports.{FromTurn}
use vanitykeygen.Client.{Net, Client, match_of}
use vanitykeygen.Client.Attributed.{NamesClaimant, first_claim-NamesClaimant, regex-claims}
use vanitykeygen.Client.Attributed.Words.{source, Gives, Folds, MatchesParts, in_words_of}
use vanitykeygen.Text.{map_runes}
use vanitykeygen.Text.Substrings.{Stands, Stands-contains, Stands-map_runes}

and_true : (a b : Bool) → (a && b) ≡ true → (a ≡ true) × (b ≡ true)
and_true a b h = (ground (arith, h), ground (arith, h))

fingerprint_scope :
    (m : Match) (t : Target) (test : String → Bool)
    → tests_fingerprint (normalize_scope t.match_scope) ≡ true
    → m.matched_fingerprint ≡ true
    → test m.key.fingerprint ≡ true
    → in_scope m t test ≡ true
fingerprint_scope m t test scope flag hit = ground (arith, scope, flag, hit)

authorized_scope :
    (m : Match) (t : Target) (test : String → Bool)
    → tests_pubkey (normalize_scope t.match_scope) ≡ true
    → m.matched_authorized_key ≡ true
    → test m.key.authorized_string ≡ true
    → in_scope m t test ≡ true
authorized_scope m t test scope flag hit = ground (arith, scope, flag, hit)

regex-compiles :
    (env : Env) (t : Target) (p : CompiledPattern)
    → p ≡ regex_pattern t
    → env.syntax_error p.pattern ≡ none
    → env.syntax_error t.pattern ≡ none
unfolding regex_pattern
regex-compiles env t p same fine =
    ap (λ (x : CompiledPattern). env.syntax_error x.pattern) (sym same) ∙ fine

module _ (env : Env) (config : Config) where
  word_claims :
      (ts : List Target) (k : WordKey) (q : String) (g : Gives env ts k q) (m : Match)
      → in_scope m g.target (λ text. contains_word env text g.word k.case_insensitive) ≡ true
      → claims env m g.target ≡ true
  unfolding claims
  word_claims ts k q g m h =
      let by_mode : mode_claims env m g.target g.mode ≡ true = rw (mode_claims, g.chosen) h in
      let by_any = any_of (mode_claims env m g.target) g.mode (modes_of g.target) g.used by_mode in
      ground (arith, g.typed, by_any)

  -- containsWord finds a word wherever a part of the text folds to it.
  contains_word_of_part :
      (text word part : String) (ci : Bool)
      → Stands part text
      → Folds env ci word part
      → contains_word env text word ci ≡ true
  unfolding contains_word
  contains_word_of_part text word part true stands folds = rw (← folds) (
      Stands-contains (map_runes env.lower text) (map_runes env.lower part)
        (Stands-map_runes env.lower text part stands))
  contains_word_of_part text word part false stands folds =
      rw (← folds) (Stands-contains text part stands)

  -- One of the two texts matches the pattern of a group.
  matched-Gives :
      (ts : List Target) (k : WordKey) (text : String)
      → Memᴰ k (keys_of (all_words env ts))
      → MatchesParts env config ts text
      → env.re_match (source config k (words_of k (all_words env ts))) text ≡ true
      → (q : String) × (g : Gives env ts k q) × (contains_word env text g.word k.case_insensitive
          ≡ true)
  matched-Gives ts k text key finds hit =
      let (q, mem, alone) = finds.alternation k key hit in
      let g = in_words_of env ts k q mem in
      let (part, stands, folds) = finds.literal k q g alone in
      (q, g, contains_word_of_part text g.word part k.case_insensitive stands folds)

  group-fingerprint :
      (k : WordKey) (qs : List String)
      → (group_pattern config k qs).match_fingerprint ≡ tests_fingerprint k.match_scope
  unfolding group_pattern
  group-fingerprint k qs = refl

  group-authorized_key :
      (k : WordKey) (qs : List String)
      → (group_pattern config k qs).match_authorized_key ≡ tests_pubkey k.match_scope
  unfolding group_pattern
  group-authorized_key k qs = refl

  -- A status of a match with the pattern of a group is claimed by a target that gives it a word.
  group-claims :
      (net : Net) (c : Client) (turn : Turn) (s : SeekerStatus) (ts : List Target) (k : WordKey)
      (from : FromTurn env turn s)
      → Memᴰ k (keys_of (all_words env ts))
      → from.pattern ≡ group_pattern config k (words_of k (all_words env ts))
      → MatchesParts env config ts s.key.fingerprint
      → MatchesParts env config ts s.key.authorized_key
      → (t : Target) × Memᴰ t ts × (claims env (match_of net s c) t ≡ true)
  unfolding match_of
  group-claims net c turn s ts k from key same in_fp in_ak =
      let qs = words_of k (all_words env ts) in
      let m = match_of net s c in
      elim (Bool-cases s.matched_fingerprint) [
        | inl fp ↦
            let (scope, hit) = and_true (group_pattern config k qs).match_fingerprint _ (
              ap (λ p. p.match_fingerprint && env.re_match p.pattern s.key.fingerprint) (sym same)
              ∙ sym from.fingerprint
              ∙ fp) in
            let (q, g, found) = matched-Gives ts k s.key.fingerprint key in_fp hit in
            (
              g.target,
              g.active,
              word_claims ts k q g m (
                  fingerprint_scope m g.target
                    (λ text. contains_word env text g.word k.case_insensitive)
                    (ap tests_fingerprint (sym g.scoped) ∙ sym (group-fingerprint k qs) ∙ scope) fp
                    found),
            )
        | inr no_fp ↦
            let ak : s.matched_authorized_key ≡ true = ground (arith, from.one, no_fp) in
            let (scope, hit) = and_true (group_pattern config k qs).match_authorized_key _ (
              ap (λ p. p.match_authorized_key && env.re_match p.pattern s.key.authorized_key)
                (sym same)
              ∙ sym from.authorized_key
              ∙ ak) in
            let (q, g, found) = matched-Gives ts k s.key.authorized_key key in_ak hit in
            (
              g.target,
              g.active,
              word_claims ts k q g m (
                  authorized_scope m g.target
                    (λ text. contains_word env text g.word k.case_insensitive)
                    (ap tests_pubkey (sym g.scoped) ∙ sym (group-authorized_key k qs) ∙ scope) ak
                    found),
            )
      ]

  served-claims :
      (net : Net) (c : Client) (turn : Turn) (s : SeekerStatus) (ts : List Target)
      (from : FromTurn env turn s)
      → turn.patterns ≡ compile_patterns env config ts
      → env.syntax_error from.pattern.pattern ≡ none
      → MatchesParts env config ts s.key.fingerprint
      → MatchesParts env config ts s.key.authorized_key
      → (t : Target) × Memᴰ t ts × (claims env (match_of net s c) t ≡ true)
  unfolding reference
  served-claims net c turn s ts from served fine in_fp in_ak =
      let mem : Memᴰ from.pattern (reference env config ts) =
        subst (Memᴰ from.pattern) (served ∙ compile_patterns-eq-reference env config ts)
          from.served in
      elim (Memᴰ.append_cases (map regex_pattern (filter (λ t. not (is_word t)) ts)) mem) [
        | inl regex ↦
            let (t, kept, same) =
              in_map regex_pattern from.pattern (filter (λ t. not (is_word t)) ts) regex in
            let (active, other) = in_filter (λ t. not (is_word t)) t ts kept in
            (
              t,
              active,
              regex-claims env net c turn s t from (ground (arith, other))
                  (regex-compiles env t from.pattern same fine) same,
            )
        | inr word ↦
            let (k, key, same) =
              in_map (λ k. group_pattern config k (words_of k (all_words env ts))) from.pattern
                (keys_of (all_words env ts)) word in
            group-claims net c turn s ts k from key same in_fp in_ak
      ]

  -- A match with any pattern that compilePatterns gives for the active targets, regex or word, is
  -- attributed: the match that reportMatch posts for a status whose key was generated in a turn
  -- that met these patterns, and matches one of them in the scopes that it names, is attributed to
  -- one of the active targets, which claims it, if that pattern compiles, every entry of the
  -- server's cache is what its pattern compiles to, and, on the two texts of the key, the regexp of
  -- a group of alternatives matches only where one of them does alone, and one that is a quoted
  -- word only where a part of the text is that word, or, with the flag i, is the same under
  -- unicode.ToLower.
  pub served_match-IsAttributed :
      (net : Net) (c : Client) (turn : Turn) (s : SeekerStatus) (ts : List Target) (cache : Cache)
      (from : FromTurn env turn s)
      → turn.patterns ≡ compile_patterns env config ts
      → env.syntax_error from.pattern.pattern ≡ none
      → MatchesParts env config ts s.key.fingerprint
      → MatchesParts env config ts s.key.authorized_key
      → IsFresh env cache
      → NamesClaimant env (match_of net s c) ts ((attribute env (match_of net s c) ts cache).0)
  served_match-IsAttributed net c turn s ts cache from served fine in_fp in_ak fresh =
      let m = match_of net s c in
      let (t, active, claimed) = served-claims net c turn s ts from served fine in_fp in_ak in
      let (u, mem, hit, named) = first_claim-NamesClaimant env m ts t active claimed in
      (u, mem, hit, (attribute-eq-first_claim env m ts cache fresh).0 ∙ named)
