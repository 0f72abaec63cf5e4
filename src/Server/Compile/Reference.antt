-- ===== src/Server/Compile/Reference.antt =====
-- compilePatterns against a reference that has no state: list what every target contributes, and then
-- take for each distinct key its distinct words.
use vanitykeygen.Common.{
  String, Bool, true, not, ◌||◌, none, some, List, [], ◌∷◌, ◌++◌, map, ◌==◌, eq_iff, ◌≡◌, ◌↔◌, refl,
  ◌∙◌, if◌then◌else◌, filter, arith, Bool-cases, Option-cases, inl, inr,
}
use mathlib.Core.List.{append_assoc, append-nil, map-append}
use vanitykeygen.Dedup.{member, dedup, dedup-concat, member-dedup, filter-concat}
use vanitykeygen.Vkg.{Target, CompiledPattern}
use vanitykeygen.Runtime.{Env}
use vanitykeygen.Server.Compile.{
  Config, normalize_scope, quote_meta, WordKey, same_key, contains, Groups, group, has_group,
  set_group, Compiling, add_order, add_quoted, modes_of, regex_pattern, group_pattern, mode_word,
  add_mode, add_modes, add_target, add_targets, compile_patterns,
}

-- A quoted word and the group that it belongs to.
abbrev pub Word : Type 0
Word = WordKey × String

abbrev pub is_word : Target → Bool
is_word t = t.type == "word"

-- the distinct keys, and the distinct words of a key, in the order in which they are first given
abbrev pub keys_of : List Word → List WordKey
keys_of ws = dedup same_key (map (λ w. w.0) ws)

abbrev pub words_of : WordKey → List Word → List String
words_of k ws = dedup ◌==◌ (map (λ w. w.1) (filter (λ w. same_key w.0 k) ws))

module _ (env : Env) where
  unfoldable pub mode_words : Target → List String → List Word
  mode_words t [] = []
  mode_words t (mode ∷ modes) =
      let rest = mode_words t modes in
      elim (mode_word env t.pattern mode) [
        | none ↦ rest
        | some (ci, word) ↦
            (
              record { case_insensitive = ci; match_scope = normalize_scope t.match_scope },
              quote_meta word,
            )
            ∷ rest
      ]

  -- what the word targets contribute, target by target and mode by mode
  unfoldable pub all_words : List Target → List Word
  unfolding mode_words
  all_words [] = []
  all_words (t ∷ ts) =
      let rest = all_words ts in if is_word t then mode_words t (modes_of t) ++ rest else rest

  -- the reference
  unfoldable pub reference : Config → List Target → List CompiledPattern
  reference config ts =
      map regex_pattern (filter (λ t. not (is_word t)) ts)
      ++ map (λ k. group_pattern config k (words_of k (all_words ts))) (keys_of (all_words ts))

pub same_key_iff : (j k : WordKey) → (same_key j k ≡ true) ↔ (j ≡ k)
unfolding same_key
same_key_iff j k = ground (arith, eq_iff j.match_scope k.match_scope)

-- The state after the words `ws` and the regex targets `rs`.
record Holds (rs : List Target) (ws : List Word) (c : Compiling) : Type 0 where
  grouped : (k : WordKey) → group k c.word_groups ≡ words_of k ws
  known : (k : WordKey) → has_group k c.word_groups ≡ member same_key k (map (λ w. w.0) ws)
  ordered : c.word_group_order ≡ keys_of ws
  passed : c.patterns ≡ map regex_pattern rs

group-set_group :
    (j k : WordKey) (words : List String) (gs : Groups)
    → group j (set_group k words gs) ≡ (if same_key k j then words else group j gs)
unfolding group set_group
group-set_group j k words [] = refl
group-set_group j k words ((i, old) ∷ gs) =
    ground
      (arith, group-set_group j k words gs, same_key_iff i k, same_key_iff i j, same_key_iff k j)

has_group-set_group :
    (j k : WordKey) (words : List String) (gs : Groups)
    → has_group j (set_group k words gs) ≡ (same_key k j || has_group j gs)
unfolding has_group set_group
has_group-set_group j k words [] = ground arith
has_group-set_group j k words ((i, old) ∷ gs) =
    ground (
      arith,
      has_group-set_group j k words gs,
      same_key_iff i k,
      same_key_iff i j,
      same_key_iff k j,
    )

has_group_of_contains :
    (k : WordKey) (q : String) (gs : Groups)
    → contains (group k gs) q ≡ true
    → has_group k gs ≡ true
unfolding group has_group contains
has_group_of_contains k q [] e = cc
has_group_of_contains k q ((j, words) ∷ gs) e = ground (arith, has_group_of_contains k q gs)

words_of-concat :
    (j k : WordKey) (q : String) (ws : List Word)
    → words_of j (ws ++ (k, q) ∷ []) ≡ (
        if same_key k j
        then (if member ◌==◌ q (words_of j ws) then words_of j ws else words_of j ws ++ q ∷ [])
        else words_of j ws)
words_of-concat j k q ws =
    rw (filter-concat (λ (w : Word). same_key w.0 j) ws (k, q)) (elim (Bool-cases (same_key k j)) [
      | inl same ↦ rw (
        same,
        map-append,
        dedup-concat ◌==◌ eq_iff,
        member-dedup ◌==◌ eq_iff q (map (λ (w : Word). w.1) (filter (λ w. same_key w.0 j) ws)),
      )
      | inr other ↦ rw other
    ])

keys_of-concat :
    (k : WordKey) (q : String) (ws : List Word)
    → keys_of (ws ++ (k, q) ∷ [])
      ≡ (if member same_key k (map (λ w. w.0) ws) then keys_of ws else keys_of ws ++ k ∷ [])
keys_of-concat k q ws = rw (map-append, dedup-concat same_key same_key_iff)

member-concat :
    (j k : WordKey) (ks : List WordKey)
    → member same_key j (ks ++ k ∷ []) ≡ (same_key k j || member same_key j ks)
member-concat j k [] = ground arith
member-concat j k (i ∷ ks) = ground (arith, member-concat j k ks)

module _ (rs : List Target) (ws : List Word) (c : Compiling) (h : Holds rs ws c) (k : WordKey)
    (q : String) where
  step : Compiling
  step = add_quoted k q (add_order k c)

  group-step :
      (j : WordKey)
      → group j step.word_groups ≡ (
          if same_key k j
          then (if contains (group k c.word_groups) q
              then group j c.word_groups
              else group k c.word_groups ++ q ∷ [])
          else group j c.word_groups)
  unfolding step add_quoted add_order
  group-step j = ground (arith, group-set_group j k (group k c.word_groups ++ q ∷ []) c.word_groups)

  has_group-step :
      (j : WordKey) → has_group j step.word_groups ≡ (same_key k j || has_group j c.word_groups)
  unfolding step add_quoted add_order
  has_group-step j = ground (
    arith,
    has_group-set_group j k (group k c.word_groups ++ q ∷ []) c.word_groups,
    has_group_of_contains k q c.word_groups,
    same_key_iff k j,
  )

  order-step :
      step.word_group_order
      ≡ (if has_group k c.word_groups then c.word_group_order else c.word_group_order ++ k ∷ [])
  unfolding step add_quoted add_order
  order-step = ground arith

  passed-step : step.patterns ≡ c.patterns
  unfolding step add_quoted add_order
  passed-step = ground arith

  step-Holds : Holds rs (ws ++ (k, q) ∷ []) step
  unfolding contains
  step-Holds = record {
    grouped = λ j.
        ground (
          arith,
          group-step j,
          words_of-concat j k q ws,
          h.grouped j,
          h.grouped k,
          same_key_iff k j,
        );
    known = λ j.
        rw
          (has_group-step j, map-append, member-concat j k (map (λ (w : Word). w.0) ws), h.known j);
    ordered = ground (arith, order-step, keys_of-concat k q ws, h.known k, h.ordered);
    passed = passed-step ∙ h.passed;
  }

module _ (env : Env) where
  add_modes-Holds :
      (t : Target) (modes : List String) (rs : List Target) (ws : List Word) (c : Compiling)
      → Holds rs ws c
      → Holds rs (ws ++ mode_words env t modes) (add_modes env t c modes)
  unfolding mode_words add_modes add_mode step
  add_modes-Holds t [] rs ws c h = rw append-nil h
  add_modes-Holds t (mode ∷ modes) rs ws c h = elim (Option-cases (mode_word env t.pattern mode)) [
    | inl skipped ↦
        rw (skipped, mode_words, add_modes, add_mode) (add_modes-Holds t modes rs ws c h)
    | inr ((ci, word), chosen) ↦
        let k : WordKey = record {
          case_insensitive = ci;
          match_scope = normalize_scope t.match_scope;
        } in
        rw (chosen, mode_words, add_modes, add_mode, ← append_assoc ws ((k, quote_meta word) ∷ []))
          (add_modes-Holds t modes rs (ws ++ (k, quote_meta word) ∷ [])
            (step rs ws c h k (quote_meta word)) (step-Holds rs ws c h k (quote_meta word)))
  ]

  pass-Holds :
      (t : Target) (rs : List Target) (ws : List Word) (c : Compiling)
      → Holds rs ws c
      → Holds (rs ++ t ∷ []) ws (record c { patterns = c.patterns ++ regex_pattern t ∷ [] })
  pass-Holds t rs ws c h = record {
    grouped = h.grouped;
    known = h.known;
    ordered = h.ordered;
    passed = rw (h.passed, map-append) refl;
  }

  add_targets-Holds :
      (ts rs : List Target) (ws : List Word) (c : Compiling)
      → Holds rs ws c
      → Holds
          (rs ++ filter (λ t. not (is_word t)) ts)
          (ws ++ all_words env ts)
          (add_targets env c ts)
  unfolding all_words add_targets add_target
  add_targets-Holds [] rs ws c h = rw (append-nil rs, append-nil ws) h
  add_targets-Holds (t ∷ ts) rs ws c h = elim (Bool-cases (is_word t)) [
    | inl word ↦
        rw (word, ← append_assoc ws (mode_words env t (modes_of t)))
          (add_targets-Holds ts rs (ws ++ mode_words env t (modes_of t))
            (add_modes env t c (modes_of t)) (add_modes-Holds t (modes_of t) rs ws c h))
    | inr regex ↦
        rw (regex, ← append_assoc rs (t ∷ []))
          (add_targets-Holds ts (rs ++ t ∷ []) ws
            (record c { patterns = c.patterns ++ regex_pattern t ∷ [] }) (pass-Holds t rs ws c h))
  ]

  start : Compiling
  start = record { word_groups = []; word_group_order = []; patterns = [] }

  start-Holds : Holds [] [] start
  unfolding start group has_group
  start-Holds = record { grouped = λ k. refl; known = λ k. refl; ordered = refl; passed = refl }

  -- compilePatterns equals a reference without state: the regex targets as they are, then for each
  -- distinct pair of case mode and scope that the word targets use one pattern, in the order of
  -- first use, whose alternatives are the distinct quoted words given for it.
  pub compile_patterns-eq-reference :
      (config : Config) (ts : List Target)
      → compile_patterns env config ts ≡ reference env config ts
  unfolding compile_patterns reference start
  compile_patterns-eq-reference config ts =
      let h = add_targets-Holds ts [] [] start start-Holds in
      λ i. h.passed i ++ map (λ k. group_pattern config k (h.grouped k i)) (h.ordered i)
