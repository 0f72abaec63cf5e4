-- ===== src/Server/Compile.antt =====
-- pkg/server/compile.go: the patterns that clients test keys against.
-- The map `wordGroups` is an association list with one entry for each key; `wordGroupOrder` is kept
-- beside it as in the code.
pub mod Reference
use vanitykeygen.Common.{
  ℕ, String, Char, code, Bool, true, false, not, ◌&&◌, ◌||◌, Option, none, some, List, [], ◌∷◌,
  ◌++◌, map, ◌==◌, if◌then◌else◌, any, find,
}
use vanitykeygen.Vkg.{Target, CompiledPattern}
use vanitykeygen.Runtime.{Env}
use vanitykeygen.Text.{append, join, contains_rune, map_runes}

-- The variables of the package that handlers read: two flags of compilePatterns, and Version.
pub record Config : Type 0 where
  pub word_prefix : String
  pub word_suffix : String
  pub version : String

-- the defaults of FlagSet, and of Version
abbrev pub default_config : Config
default_config = record { word_prefix = "[\\/\\+]"; word_suffix = "=?$"; version = "dev" }

-- normalizeScope
unfoldable pub normalize_scope : String → String
normalize_scope scope = if scope == "fingerprint" || scope == "pubkey" then scope else "both"

-- `scope == "fingerprint" || scope == "both"`, and the same for "pubkey"
unfoldable pub tests_fingerprint : String → Bool
tests_fingerprint scope = scope == "fingerprint" || scope == "both"

unfoldable pub tests_pubkey : String → Bool
tests_pubkey scope = scope == "pubkey" || scope == "both"

-- regexp.QuoteMeta: a backslash before each character that is special
unfoldable pub quote_meta : String → String
quote_meta String.[] = ""
quote_meta (String.◌∷◌ c s) =
    let rest = String.◌∷◌ c (quote_meta s) in
    if contains_rune "\\.+*?()|[]{}^$" c then append "\\" rest else rest

pub record WordKey : Type 0 where
  pub case_insensitive : Bool
  pub match_scope : String

abbrev pub same_bool : Bool → Bool → Bool
same_bool true b = b
same_bool false b = not b

unfoldable pub same_key : WordKey → WordKey → Bool
same_key j k = same_bool j.case_insensitive k.case_insensitive && (j.match_scope == k.match_scope)

-- contains
unfoldable pub contains : List String → String → Bool
contains ss s = any (λ v. v == s) ss

abbrev pub Groups : Type 0
Groups = List (WordKey × List String)

-- `wordGroups[k]`, the empty list for a key that is not there
unfoldable pub group : WordKey → Groups → List String
group k [] = []
group k ((j, words) ∷ rest) = if same_key j k then words else group k rest

unfoldable pub has_group : WordKey → Groups → Bool
has_group k groups = any (λ g. same_key (g.0) k) groups

-- `wordGroups[k] = words`
unfoldable pub set_group : WordKey → List String → Groups → Groups
set_group k words [] = (k, words) ∷ []
set_group k words ((j, old) ∷ rest) =
    if same_key j k then (j, words) ∷ rest else (j, old) ∷ set_group k words rest

-- The variables of compilePatterns.
pub record Compiling : Type 0 where
  pub word_groups : Groups
  pub word_group_order : List WordKey
  pub patterns : List CompiledPattern

unfoldable pub add_order : WordKey → Compiling → Compiling
add_order k c =
    if has_group k c.word_groups
    then c
    else record c { word_group_order = c.word_group_order ++ k ∷ [] }

unfoldable pub add_quoted : WordKey → String → Compiling → Compiling
add_quoted k quoted c =
    if contains (group k c.word_groups) quoted
    then c
    else record c { word_groups = set_group k (group k c.word_groups ++ quoted ∷ []) c.word_groups }

-- `modes := t.CaseModes`, and insensitive if there is none
unfoldable pub modes_of : Target → List String
modes_of t = elim t.case_modes [ [] ↦ "insensitive" ∷ [] | m ∷ ms ↦ m ∷ ms ]

unfoldable pub regex_pattern : Target → CompiledPattern
unfolding normalize_scope tests_fingerprint tests_pubkey
regex_pattern t = record {
  pattern = t.pattern;
  match_fingerprint = tests_fingerprint (normalize_scope t.match_scope);
  match_authorized_key = tests_pubkey (normalize_scope t.match_scope);
}

module _ (config : Config) where
  unfoldable pub group_pattern : WordKey → List String → CompiledPattern
  unfolding tests_fingerprint tests_pubkey
  group_pattern k words = record {
    pattern = append (if k.case_insensitive then "(?i)" else "") (
        append config.word_prefix
          (append "(" (append (join "|" words) (append ")" config.word_suffix))));
    match_fingerprint = tests_fingerprint k.match_scope;
    match_authorized_key = tests_pubkey k.match_scope;
  }

module _ (env : Env) where
  -- capitalize
  unfoldable pub capitalize : String → String
  capitalize String.[] = ""
  capitalize (String.◌∷◌ c s) = String.◌∷◌ (env.upper c) (map_runes env.lower s)

  -- the `switch mode`: whether to ignore case, and the word; `none` is `continue`
  unfoldable pub mode_word : String → String → Option (Bool × String)
  mode_word pattern mode =
      if mode == "insensitive"
      then some (true, pattern)
      else if mode == "sensitive"
      then some (false, pattern)
      else if mode == "capitalized"
      then some (false, capitalize pattern)
      else none

  -- the body of the loop over modes
  unfoldable pub add_mode : Target → Compiling → String → Compiling
  unfolding add_order add_quoted
  add_mode t c mode = elim (mode_word t.pattern mode) [
    | none ↦ c
    | some (ci, word) ↦
        let k : WordKey = record {
          case_insensitive = ci;
          match_scope = normalize_scope t.match_scope;
        } in
        add_quoted k (quote_meta word) (add_order k c)
  ]

  unfoldable pub add_modes : Target → Compiling → List String → Compiling
  add_modes t c [] = c
  add_modes t c (mode ∷ modes) = add_modes t (add_mode t c mode) modes

  -- the body of the loop over targets
  unfoldable pub add_target : Compiling → Target → Compiling
  add_target c t =
      if t.type == "word"
      then add_modes t c (modes_of t)
      else record c { patterns = c.patterns ++ regex_pattern t ∷ [] }

  unfoldable pub add_targets : Compiling → List Target → Compiling
  add_targets c [] = c
  add_targets c (t ∷ ts) = add_targets (add_target c t) ts

  -- compilePatterns
  unfoldable pub compile_patterns : Config → List Target → List CompiledPattern
  compile_patterns config targets =
      let c =
        add_targets (record { word_groups = []; word_group_order = []; patterns = [] }) targets in
      c.patterns ++ map (λ k. group_pattern config k (group k c.word_groups)) c.word_group_order
