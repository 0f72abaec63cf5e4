-- ===== src/Tests/WordTests.antt =====
-- A word target from the server to a seeker and back, at a concrete input.
use mathlib.Core.List.{Memᴰ}
use mathlib.Core.List.Memᴰ
use vanitykeygen.Common.{
  String, Bool, true, false, false≢true, Option, some, List, [], ◌∷◌, ◌≡◌, refl, sym, subst,
}
use vanitykeygen.Vkg.{Target, CompiledPattern}
use vanitykeygen.Runtime.{Env, ok}
use vanitykeygen.Text.{join, contains, contains_rune, has_prefix, map_runes}
use vanitykeygen.Keygen.{KeyResult}
use vanitykeygen.Server.Compile.{
  default_config, WordKey, same_key, quote_meta, normalize_scope, modes_of, mode_word,
  group_pattern, compile_patterns, add_targets, add_target, add_modes, add_mode, add_order,
  add_quoted, has_group, group, set_group, contains as listed,
}
use vanitykeygen.Server.Compile.Reference.{keys_of, words_of, all_words, mode_words}
use vanitykeygen.Server.Attribution.{attribute}
use vanitykeygen.Server.Attribution.Reference.{IsFresh-nil}
use vanitykeygen.Client.{match_of}
use vanitykeygen.Client.Seeker.{SeekerStatus, Turn}
use vanitykeygen.Client.Reports.{FromTurn}
use vanitykeygen.Client.Attributed.{NamesClaimant}
use vanitykeygen.Client.Attributed.Words.{MatchesParts, Gives}
use vanitykeygen.Client.Attributed.Served.{served_match-IsAttributed}
use vanitykeygen.Tests.{quiet, word_target}
use vanitykeygen.Tests.ClientTests.{offline, seeking, finds, found_key, found}

-- an expression is found in the texts that contain the one word that there is, in any case
abbrev searching : Env
searching = record quiet { re_match = λ p s. contains (map_runes quiet.lower s) "nugget" }

abbrev nugget : Target
nugget = record word_target { case_modes = "insensitive" ∷ [] }

abbrev targets : List Target
targets = nugget ∷ []

abbrev key : WordKey
key = record { case_insensitive = true; match_scope = "both" }

one_key : keys_of (all_words searching targets) ≡ key ∷ []
unfolding all_words mode_words mode_word modes_of quote_meta normalize_scope same_key
one_key = refl

one_word : words_of key (all_words searching targets) ≡ "nugget" ∷ []
unfolding all_words mode_words mode_word modes_of quote_meta normalize_scope same_key contains_rune
one_word = refl

parts :
    (a b : Bool) (v w : String)
    → ◌≡◌ {A = Option (Bool × String)} (some (a, v)) (some (b, w))
    → (w ≡ v) × (b ≡ a)
parts a b v w e = (cc, cc)

given_word :
    (k : WordKey) (q : String) (g : Gives searching targets k q)
    → (g.word ≡ "nugget") × (k.case_insensitive ≡ true)
unfolding modes_of mode_word
given_word k q g =
    let its : g.target ≡ nugget = Memᴰ.eq_of_singleton g.active in
    let mode : g.mode ≡ "insensitive" =
      Memᴰ.eq_of_singleton (subst (λ (t : Target). Memᴰ g.mode (modes_of t)) its g.used) in
    let chosen : mode_word searching nugget.pattern "insensitive"
        ≡ some (k.case_insensitive, g.word) =
      subst (λ m. mode_word searching nugget.pattern m ≡ some (k.case_insensitive, g.word)) mode
        (subst
          (λ (t : Target). mode_word searching t.pattern g.mode ≡ some (k.case_insensitive, g.word))
          its g.chosen) in
    parts true k.case_insensitive "nugget" g.word chosen

abbrev nugget_key : KeyResult
nugget_key = record found_key { fingerprint = "xyz/Nugget"; authorized_key = "ssh-ed25519 AAAA" }

in_fingerprint : MatchesParts searching default_config targets nugget_key.fingerprint
unfolding map_runes contains has_prefix
in_fingerprint = record {
  alternation = λ k used hit.
      let same : k ≡ key = Memᴰ.eq_of_singleton (subst (Memᴰ k) one_key used) in
      (
        "nugget",
        subst (λ (j : WordKey). Memᴰ "nugget" (words_of j (all_words searching targets))) (sym same)
            (subst (Memᴰ "nugget") (sym one_word) (Memᴰ.head refl)),
        hit,
      );
  literal = λ k q g alone.
      let (word, folding) = given_word k q g in
      rw (word, folding) ("Nugget", record { before = "xyz/"; after = ""; whole = refl }, refl);
}

in_authorized_key : MatchesParts searching default_config targets nugget_key.authorized_key
unfolding map_runes contains has_prefix
in_authorized_key = record {
  alternation = λ k used hit. absurd (false≢true hit);
  literal = λ k q g alone. absurd (false≢true alone);
}

abbrev served_pattern : CompiledPattern
served_pattern = record {
  pattern = "(?i)[\\/\\+](nugget)=?$";
  match_fingerprint = true;
  match_authorized_key = true;
}

compiled : compile_patterns searching default_config targets ≡ served_pattern ∷ []
unfolding compile_patterns add_targets add_target add_modes add_mode add_order add_quoted has_group
    group set_group mode_word modes_of quote_meta contains_rune normalize_scope same_key
    group_pattern listed join
compiled = refl

abbrev word_turn : Turn
word_turn = record finds {
  patterns = compile_patterns searching default_config targets;
  generated = ok nugget_key;
}

abbrev word_status : SeekerStatus
word_status = record found {
  match_string = "/Nugget";
  matched_authorized_key = false;
  matched_fingerprint = true;
  key = nugget_key;
}

abbrev from_word_turn : FromTurn searching word_turn word_status
unfolding map_runes contains has_prefix
from_word_turn = record {
  generated = refl;
  pattern = served_pattern;
  served = subst (Memᴰ served_pattern) (sym compiled) (Memᴰ.head refl);
  fingerprint = refl;
  authorized_key = refl;
  one = refl;
}

served_match-IsAttributed_example :
    NamesClaimant searching
      (match_of offline word_status seeking)
      targets
      ((attribute searching (match_of offline word_status seeking) targets []).0)
unfolding from_word_turn
served_match-IsAttributed_example =
    served_match-IsAttributed searching default_config offline seeking word_turn word_status targets
      [] from_word_turn refl refl in_fingerprint in_authorized_key (IsFresh-nil searching)
