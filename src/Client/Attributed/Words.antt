-- ===== src/Client/Attributed/Words.antt =====
-- From a seeker to the server, for the patterns that word targets share.
use mathlib.Core.List.{Memᴰ}
use mathlib.Core.List.Memᴰ
use vanitykeygen.Common.{
  String, Bool, true, false, none, some, List, [], ◌∷◌, ◌++◌, map, filter, ◌==◌, ◌≡◌, refl, sym, ap,
  subst, ◌∙◌, Bool-cases, Option-cases, inl, inr,
}
use vanitykeygen.Members.{in_filter, in_dedup, in_map}
use vanitykeygen.Vkg.{Target}
use vanitykeygen.Runtime.{Env}
use vanitykeygen.Server.Compile.{
  Config, WordKey, same_key, quote_meta, normalize_scope, modes_of, mode_word, group_pattern,
}
use vanitykeygen.Server.Compile.Reference.{
  Word, is_word, keys_of, words_of, all_words, mode_words, same_key_iff,
}
use vanitykeygen.Text.{map_runes}
use vanitykeygen.Text.Substrings.{Stands}

-- the source of the pattern that a group of alternatives gives
abbrev pub source : Config → WordKey → List String → String
source config k qs = (group_pattern config k qs).pattern

-- A word that a word target gives to the group of a key.
pub record Gives (env : Env) (ts : List Target) (k : WordKey) (q : String) : Type 0 where
  pub target : Target
  pub active : Memᴰ target ts
  pub typed : is_word target ≡ true
  pub mode : String
  pub used : Memᴰ mode (modes_of target)
  pub word : String
  pub chosen : mode_word env target.pattern mode ≡ some (k.case_insensitive, word)
  pub scoped : k.match_scope ≡ normalize_scope target.match_scope
  pub quoted : q ≡ quote_meta word

-- the texts that a quoted word stands for: itself, and with the flag i all that fold to the same
abbrev pub Folds : Env → Bool → String → String → Type 0
Folds env true word part = map_runes env.lower part ≡ map_runes env.lower word
Folds env false word part = part ≡ word

-- What the documentation of regexp says of the expressions that compilePatterns builds, on one text: a
-- group of alternatives matches only where one of them does alone, and one that is a quoted word only
-- where a part of the text is that word, or, with the flag i, differs from it in case only. The part
-- and the word are then the same to unicode.ToLower, as the letters of ASCII are.
-- Nothing here is about the server's own search.
pub record MatchesParts (env : Env) (config : Config) (ts : List Target) (text : String)
    : Type 0 where
  pub alternation :
      (k : WordKey)
      → Memᴰ k (keys_of (all_words env ts))
      → env.re_match (source config k (words_of k (all_words env ts))) text ≡ true
      → (q : String) × Memᴰ q (words_of k (all_words env ts))
        × (env.re_match (source config k (q ∷ [])) text ≡ true)
  pub literal :
      (k : WordKey) (q : String) (given : Gives env ts k q)
      → env.re_match (source config k (q ∷ [])) text ≡ true
      → (part : String) × Stands part text × Folds env k.case_insensitive given.word part

module _ (env : Env) where
  skips :
      (t : Target) (mode : String) (modes : List String)
      → mode_word env t.pattern mode ≡ none
      → mode_words env t (mode ∷ modes) ≡ mode_words env t modes
  unfolding mode_words
  skips t mode modes e = rw (mode_words, e) refl

  gives :
      (t : Target) (mode : String) (modes : List String) (ci : Bool) (word : String)
      → mode_word env t.pattern mode ≡ some (ci, word)
      → mode_words env t (mode ∷ modes)
        ≡ (
          record { case_insensitive = ci; match_scope = normalize_scope t.match_scope },
          quote_meta word,
        )
          ∷ mode_words env t modes
  unfolding mode_words
  gives t mode modes ci word e = rw (mode_words, e) refl

  passes :
      (t : Target) (ts : List Target)
      → is_word t ≡ false
      → all_words env (t ∷ ts) ≡ all_words env ts
  unfolding all_words
  passes t ts e = rw (all_words, e) refl

  adds :
      (t : Target) (ts : List Target)
      → is_word t ≡ true
      → all_words env (t ∷ ts) ≡ mode_words env t (modes_of t) ++ all_words env ts
  unfolding all_words
  adds t ts e = rw (all_words, e) refl

  in_mode_words :
      (t : Target) (modes : List String) (w : Word)
      → Memᴰ w (mode_words env t modes)
      → (mode : String) × Memᴰ mode modes
        × (word : String) × (mode_word env t.pattern mode ≡ some (w.0.case_insensitive, word))
        × (w.0.match_scope ≡ normalize_scope t.match_scope)
        × (w.1 ≡ quote_meta word)
  unfolding mode_words
  in_mode_words t [] w mem = absurd (Memᴰ.not-nil mem)
  in_mode_words t (mode ∷ modes) w mem = elim (Option-cases (mode_word env t.pattern mode)) [
    | inl skipped ↦
        let (m, used, word, a, b, c) =
          in_mode_words t modes w (subst (Memᴰ w) (skips t mode modes skipped) mem) in
        (m, Memᴰ.tail used, word, a, b, c)
    | inr ((ci, word), chosen) ↦
        elim (Memᴰ.cases_cons (subst (Memᴰ w) (gives t mode modes ci word chosen) mem)) [
          | inl here ↦ (
            mode,
            Memᴰ.head refl,
            word,
            chosen ∙ ap (λ (x : Word). some (x.0.case_insensitive, word)) (sym here),
            ap (λ (x : Word). x.0.match_scope) here,
            ap (λ (x : Word). x.1) here,
          )
          | inr later ↦
              let (m, used, v, a, b, c) = in_mode_words t modes w later in
              (m, Memᴰ.tail used, v, a, b, c)
        ]
  ]

  in_all_words :
      (ts : List Target) (w : Word)
      → Memᴰ w (all_words env ts)
      → (t : Target) × Memᴰ t ts × (is_word t ≡ true) × Memᴰ w (mode_words env t (modes_of t))
  unfolding all_words
  in_all_words [] w mem = absurd (Memᴰ.not-nil mem)
  in_all_words (t ∷ ts) w mem = elim (Bool-cases (is_word t)) [
    | inr regex ↦
        let (u, there, typed, its) = in_all_words ts w (subst (Memᴰ w) (passes t ts regex) mem) in
        (u, Memᴰ.tail there, typed, its)
    | inl typed ↦
        elim (Memᴰ.append_cases (mode_words env t (modes_of t))
          (subst (Memᴰ w) (adds t ts typed) mem)) [
            | inl its ↦ (t, Memᴰ.head refl, typed, its)
            | inr later ↦
                let (u, there, is, its) = in_all_words ts w later in (u, Memᴰ.tail there, is, its)
          ]
  ]

  -- Every alternative of a group is a word that a target gives.
  pub in_words_of :
      (ts : List Target) (k : WordKey) (q : String)
      → Memᴰ q (words_of k (all_words env ts))
      → Gives env ts k q
  in_words_of ts k q mem =
      let of_key = filter (λ (w : Word). same_key w.0 k) (all_words env ts) in
      let (w, kept, is_q) =
        in_map (λ (w : Word). w.1) q of_key (in_dedup ◌==◌ q (map (λ w. w.1) of_key) mem) in
      let (there, same) = in_filter (λ (w : Word). same_key w.0 k) w (all_words env ts) kept in
      let k_eq : w.0 ≡ k = (same_key_iff w.0 k).0 same in
      let (t, active, typed, its) = in_all_words ts w there in
      let (mode, used, word, chosen, scoped, quoted) = in_mode_words t (modes_of t) w its in
      record {
        target = t;
        active = active;
        typed = typed;
        mode = mode;
        used = used;
        word = word;
        chosen = chosen ∙ ap (λ (x : WordKey). some (x.case_insensitive, word)) k_eq;
        scoped = ap (λ (x : WordKey). x.match_scope) (sym k_eq) ∙ scoped;
        quoted = is_q ∙ quoted;
      }
