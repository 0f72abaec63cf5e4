-- ===== src/Server/Validation.antt =====
-- pkg/server/routes_targets.go: what a target must be to be stored.
use vanitykeygen.Common.{String, not, ◌&&◌, Option, none, some, List, [], ◌∷◌, ◌==◌, if◌then◌else◌}
use vanitykeygen.Vkg.{Target}
use vanitykeygen.Runtime.{Env}
use vanitykeygen.Text.{append, contains_rune}
use vanitykeygen.Server.Compile.{contains}

abbrev pub base64_chars : String
base64_chars = "ABCDEFGHIJKLMNOPQRSTUVWXYZabcdefghijklmnopqrstuvwxyz0123456789+/="

abbrev pub allowed_target_types : List String
allowed_target_types = "word" ∷ "regex" ∷ []

abbrev pub allowed_match_scopes : List String
allowed_match_scopes = "fingerprint" ∷ "pubkey" ∷ "both" ∷ []

abbrev pub allowed_case_modes : List String
allowed_case_modes = "insensitive" ∷ "sensitive" ∷ "capitalized" ∷ []

-- the error, if there is one
abbrev pub Check : Type 0
Check = Option String

infixl 5 ◌and_then◌
abbrev pub ◌and_then◌ : Check → Check → Check
none and_then c = c
some e and_then c = some e

module _ (env : Env) where
  -- validateWordPattern
  unfoldable pub validate_word_pattern : String → Check
  validate_word_pattern String.[] = none
  validate_word_pattern (String.◌∷◌ r rest) =
      let later = validate_word_pattern rest in
      if contains_rune base64_chars r
      then later
      else some (
          append "character " (
            append (env.quote (String.◌∷◌ r ""))
              " cannot appear in SSH fingerprints or public keys"))

  -- validateRegexPattern
  unfoldable pub validate_regex_pattern : String → Check
  validate_regex_pattern pattern = elim (env.syntax_error pattern) [
    | none ↦ none
    | some e ↦ some (append "invalid regex: " e)
  ]

  -- `x != "" && !allowed[x]`
  unfoldable pub check_enum : List String → String → String → Check
  check_enum allowed message value =
      if not (value == "") && not (contains allowed value)
      then some (append message (append " (got " (append (env.quote value) ")")))
      else none

  -- the loop over CaseModes, which must not be empty strings either
  unfoldable pub check_modes : List String → Check
  check_modes [] = none
  check_modes (m ∷ ms) =
      let later = check_modes ms in
      if not (contains allowed_case_modes m)
      then some (
          append "case_modes must be from {insensitive, sensitive, capitalized}"
            (append " (got " (append (env.quote m) ")")))
      else later

  -- validateTargetEnums
  unfoldable pub validate_target_enums : Target → Check
  unfolding check_enum
  validate_target_enums t =
      check_enum allowed_target_types "type must be one of word, regex" t.type
      and_then (check_enum allowed_match_scopes
            "match_scope must be one of fingerprint, pubkey, both" t.match_scope
          and_then check_modes t.case_modes)

  -- the choice between the two checks of a pattern that create and update make
  unfoldable pub validate_pattern : Target → Check
  validate_pattern t =
      if t.type == "word" then validate_word_pattern t.pattern else validate_regex_pattern t.pattern
