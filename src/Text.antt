-- ===== src/Text.antt =====
-- What the program uses of Go's `strings`: Join, Split at one character, Contains and ToLower, on
-- texts that are valid UTF-8. A text is walked by its runes.
pub mod Laws
pub mod Substrings
-- the `+` of Go's strings
pub use Prim.Native.String.{◌++◌ as append}
use vanitykeygen.Common.{
  ℕ, String, Char, code, Bool, true, false, ◌&&◌, ◌||◌, List, [], ◌∷◌, eqb, if◌then◌else◌,
}

-- strings.Join
unfoldable pub join : String → List String → String
join sep [] = ""
join sep (s ∷ []) = s
join sep (s ∷ t ∷ rest) = append s (append sep (join sep (t ∷ rest)))

-- a character in front of the first piece
abbrev pub cons_first : Char → List String → List String
cons_first c [] = String.◌∷◌ c "" ∷ []
cons_first c (p ∷ ps) = String.◌∷◌ c p ∷ ps

-- strings.Split at the character with the code `sep`
unfoldable pub split : ℕ → String → List String
split sep String.[] = "" ∷ []
split sep (String.◌∷◌ c s) =
    let rest = split sep s in if eqb (code c) sep then "" ∷ rest else cons_first c rest

-- strings.HasPrefix
unfoldable pub has_prefix : String → String → Bool
has_prefix s String.[] = true
has_prefix String.[] (String.◌∷◌ d t) = false
has_prefix (String.◌∷◌ c s) (String.◌∷◌ d t) = eqb (code c) (code d) && has_prefix s t

-- strings.Contains
unfoldable pub contains : String → String → Bool
unfolding has_prefix
contains String.[] t = has_prefix "" t
contains (String.◌∷◌ c s) t = has_prefix (String.◌∷◌ c s) t || contains s t

-- strings.ContainsRune
unfoldable pub contains_rune : String → Char → Bool
contains_rune String.[] r = false
contains_rune (String.◌∷◌ c s) r = eqb (code c) (code r) || contains_rune s r

-- strings.Map: a function on every rune, as strings.ToLower does with unicode.ToLower
unfoldable pub map_runes : (Char → Char) → String → String
map_runes f String.[] = ""
map_runes f (String.◌∷◌ c s) = String.◌∷◌ (f c) (map_runes f s)
