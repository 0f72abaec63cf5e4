-- ===== src/Server/Attribution/Reference.antt =====
-- attributeMatch against a reference with no cache and no early return: the first active target that
-- claims the match.
use vanitykeygen.Common.{
  String, Bool, false, ◌&&◌, ◌||◌, none, some, List, [], ◌∷◌, ◌==◌, eq_iff, ◌≡◌, refl, sym, ◌∙◌,
  if◌then◌else◌, any, find, arith, Bool-cases, Option-cases, inl, inr,
}
use vanitykeygen.Vkg.{Target, Match}
use vanitykeygen.Runtime.{Env, ok, err}
use vanitykeygen.Server.Compile.{
  normalize_scope, tests_fingerprint, tests_pubkey, modes_of, mode_word,
}
use vanitykeygen.Regexp.{Regexp, compile}
use vanitykeygen.Server.Attribution.{
  Cache, load, load_or_store, cached_compile, contains_word, word_hits, any_mode_hits, target_hits,
  attribute,
}

-- A part of the key counts if the client says that it matched, the target's scope has it and the test
-- accepts it.
abbrev pub in_scope : Match → Target → (String → Bool) → Bool
in_scope m t test =
    let scope = normalize_scope t.match_scope in
    (tests_fingerprint scope && m.matched_fingerprint && test m.key.fingerprint)
    || (tests_pubkey scope && m.matched_authorized_key && test m.key.authorized_string)

module _ (env : Env) where
  abbrev pub mode_claims : Match → Target → String → Bool
  mode_claims m t mode = elim (mode_word env t.pattern mode) [
    | none ↦ false
    | some (ci, word) ↦ in_scope m t (λ text. contains_word env text word ci)
  ]

  abbrev pub regex_claims : Match → Target → Bool
  regex_claims m t = elim (env.syntax_error t.pattern) [
    | none ↦ in_scope m t (env.re_match t.pattern)
    | some e ↦ false
  ]

  unfoldable pub claims : Match → Target → Bool
  claims m t = if t.type == "word" then any (mode_claims m t) (modes_of t) else regex_claims m t

  -- Every expression in the cache is the one that its pattern compiles to.
  pub record IsFresh (cache : Cache) : Type 0 where
    pub compiled :
        (p : String) (re : Regexp)
        → load p cache ≡ some re
        → (re.source ≡ p) × (env.syntax_error p ≡ none)

  pub IsFresh-nil : IsFresh []
  unfolding load
  IsFresh-nil = record { compiled = λ p re h. cc }

  compile-of_fresh :
      (p : String) (re : Regexp) (cache : Cache)
      → IsFresh cache
      → load p cache ≡ some re
      → compile env p ≡ ok re
  unfolding compile
  compile-of_fresh p re cache fresh h =
      let (source, fine) = fresh.compiled p re h in ground (arith, source, fine)

  cons-IsFresh :
      (p : String) (cache : Cache)
      → IsFresh cache
      → env.syntax_error p ≡ none
      → IsFresh ((p, record { source = p }) ∷ cache)
  unfolding load
  cons-IsFresh p cache fresh fine = record {
    compiled = λ q re h. ground (arith, eq_iff p q, fresh.compiled q re);
  }

  compile_fine :
      (p : String) → env.syntax_error p ≡ none → compile env p ≡ ok (record { source = p })
  unfolding compile
  compile_fine p h = rw (h, compile)

  compile_bad : (p e : String) → env.syntax_error p ≡ some e → compile env p ≡ err e
  unfolding compile
  compile_bad p e h = rw (h, compile)

  -- cachedCompile answers as regexp.Compile, whatever the cache holds, and keeps it so.
  pub cached_compile_lem :
      (p : String) (cache : Cache)
      → IsFresh cache
      → ((cached_compile env p cache).0 ≡ compile env p) × IsFresh (cached_compile env p cache).1
  unfolding cached_compile
  cached_compile_lem p cache fresh = elim (Option-cases (load p cache)) [
    | inr (re, hit) ↦ rw (hit, cached_compile) (sym (compile-of_fresh p re cache fresh hit), fresh)
    | inl miss ↦ elim (Option-cases (env.syntax_error p)) [
      | inr (e, bad) ↦ rw (miss, cached_compile, compile_bad p e bad) (refl, fresh)
      | inl fine ↦
          rw (miss, cached_compile, compile_fine p fine)
            (rw (miss, load_or_store) (refl, cons-IsFresh p cache fresh fine))
    ]
  ]

  any_mode_hits-any :
      (m : Match) (t : Target) (modes : List String)
      → any_mode_hits env m t modes ≡ any (mode_claims m t) modes
  unfolding any_mode_hits word_hits
  any_mode_hits-any m t [] = refl
  any_mode_hits-any m t (mode ∷ modes) = ground (arith, any_mode_hits-any m t modes)

  pub target_hits_lem :
      (m : Match) (t : Target) (cache : Cache)
      → IsFresh cache
      → ((target_hits env m t cache).0 ≡ claims m t) × IsFresh (target_hits env m t cache).1
  unfolding target_hits compile claims
  target_hits_lem m t cache fresh = elim (Bool-cases (t.type == "word")) [
    | inl word ↦ rw word (any_mode_hits-any m t (modes_of t), fresh)
    | inr regex ↦
        let (same, fresh') = cached_compile_lem t.pattern cache fresh in
        rw regex (ground (arith, same), fresh')
  ]

  -- the ID of the first target that claims the match, "" if none does
  abbrev pub first_claim : Match → List Target → String
  first_claim m ts = elim (find (claims m) ts) [ none ↦ "" | some t ↦ t.id ]

  -- From every cache whose entries are what their patterns compile to, attributeMatch's loop
  -- returns the ID of the first target that claims the match, and "" if none does, and leaves such
  -- a cache.
  pub attribute-eq-first_claim :
      (m : Match) (ts : List Target) (cache : Cache)
      → IsFresh cache
      → ((attribute env m ts cache).0 ≡ first_claim m ts) × IsFresh (attribute env m ts cache).1
  unfolding attribute
  attribute-eq-first_claim m [] cache fresh = (refl, fresh)
  attribute-eq-first_claim m (t ∷ ts) cache fresh =
      let (same, fresh') = target_hits_lem m t cache fresh in
      let (rest, fresh'') = attribute-eq-first_claim m ts (target_hits env m t cache).1 fresh' in
      elim (Bool-cases (claims m t)) [
        | inl hit ↦ rw (same ∙ hit, first_claim, hit) (refl, fresh')
        | inr miss ↦ rw (same ∙ miss, first_claim, miss) (rest, fresh'')
      ]
