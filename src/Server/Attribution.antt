-- ===== src/Server/Attribution.antt =====
-- pkg/server/routes_matches.go and server.go: attributeMatch, containsWord and cachedCompile.
pub mod Reference
use vanitykeygen.Common.{
  ℕ, String, Char, Bool, true, false, not, ◌&&◌, ◌||◌, Option, none, some, List, [], ◌∷◌, ◌==◌,
  if◌then◌else◌, any,
}
use vanitykeygen.Vkg.{Target, Match}
use vanitykeygen.Runtime.{Env, Outcome, ok, err}
use vanitykeygen.Regexp.{Regexp, compile}
use vanitykeygen.Text
use vanitykeygen.Text.{map_runes}
use vanitykeygen.Server.Compile.{
  normalize_scope, tests_fingerprint, tests_pubkey, modes_of, mode_word,
}

-- s.reCache
abbrev pub Cache : Type 0
Cache = List (String × Regexp)

-- reCache.Load
unfoldable pub load : String → Cache → Option Regexp
load p [] = none
load p ((q, re) ∷ rest) = if q == p then some re else load p rest

-- reCache.LoadOrStore
abbrev pub load_or_store : String → Regexp → Cache → Regexp × Cache
load_or_store p re cache = elim (load p cache) [
  | some actual ↦ (actual, cache)
  | none ↦ (re, (p, re) ∷ cache)
]

module _ (env : Env) where
  abbrev store_compiled : String → Outcome String Regexp → Cache → Outcome String Regexp × Cache
  store_compiled p (err e) cache = (err e, cache)
  store_compiled p (ok re) cache =
      let (actual, cache') = load_or_store p re cache in (ok actual, cache')

  -- cachedCompile
  unfoldable pub cached_compile : String → Cache → Outcome String Regexp × Cache
  cached_compile p cache = elim (load p cache) [
    | some re ↦ (ok re, cache)
    | none ↦ store_compiled p (compile env p) cache
  ]

  -- containsWord
  unfoldable pub contains_word : String → String → Bool → Bool
  contains_word haystack needle case_insensitive =
      if case_insensitive
      then Text.contains (map_runes env.lower haystack) (map_runes env.lower needle)
      else Text.contains haystack needle

  -- the two tests of a word in its scope
  unfoldable pub word_hits : Match → String → Bool → String → Bool
  word_hits m scope case_insensitive word =
      (tests_fingerprint scope
        && m.matched_fingerprint
        && contains_word m.key.fingerprint word case_insensitive)
      || (tests_pubkey scope
          && m.matched_authorized_key
          && contains_word m.key.authorized_string word case_insensitive)

  -- the loop over modes: whether one of them returns the target
  unfoldable pub any_mode_hits : Match → Target → List String → Bool
  any_mode_hits m t [] = false
  any_mode_hits m t (mode ∷ modes) =
      let rest = any_mode_hits m t modes in
      elim (mode_word env t.pattern mode) [
        | none ↦ rest
        | some (ci, word) ↦
            if word_hits m (normalize_scope t.match_scope) ci word then true else rest
      ]

  -- the two tests of an expression in its scope
  unfoldable pub regex_hits : Match → String → Regexp → Bool
  regex_hits m scope re =
      (tests_fingerprint scope && m.matched_fingerprint && env.re_match re.source m.key.fingerprint)
      || (tests_pubkey scope
          && m.matched_authorized_key
          && env.re_match re.source m.key.authorized_string)

  abbrev compiled_hits : Match → Target → Outcome String Regexp → Bool
  compiled_hits m t (err e) = false
  compiled_hits m t (ok re) = regex_hits m (normalize_scope t.match_scope) re

  -- the body of the loop over targets: whether it returns this one
  unfoldable pub target_hits : Match → Target → Cache → Bool × Cache
  unfolding normalize_scope tests_fingerprint tests_pubkey word_hits regex_hits
  target_hits m t cache =
      if t.type == "word"
      then (any_mode_hits m t (modes_of t), cache)
      else (let (compiled, cache') = cached_compile t.pattern cache in
          (compiled_hits m t compiled, cache'))

  -- the loop over the active targets
  unfoldable pub attribute : Match → List Target → Cache → String × Cache
  attribute m [] cache = ("", cache)
  attribute m (t ∷ ts) cache =
      let (hit, cache') = target_hits m t cache in
      let rest = attribute m ts cache' in if hit then (t.id, cache') else rest
