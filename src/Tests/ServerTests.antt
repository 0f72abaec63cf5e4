-- ===== src/Tests/ServerTests.antt =====
-- Runs of the server, and its theorems at concrete inputs.
use vanitykeygen.Common.{pos, true, false, some, List, [], ◌∷◌, ◌≡◌, refl, arith}
use vanitykeygen.Vkg.{Target}
use vanitykeygen.Table.{lookup}
use vanitykeygen.Store.{Store, ClientRow, empty_store}
use vanitykeygen.Server.{serve, new_server}
use vanitykeygen.Server.Compile.{
  default_config, compile_patterns, add_targets, add_target, add_modes, modes_of, add_mode,
  mode_word, contains, group, has_group, set_group, same_key, regex_pattern, group_pattern,
  quote_meta, capitalize,
}
use vanitykeygen.Text.{join, contains_rune, map_runes}
use vanitykeygen.Server.Compile.Reference.{reference, compile_patterns-eq-reference}
use vanitykeygen.Server.Attribution.{attribute}
use vanitykeygen.Server.Attribution.Reference.{
  IsFresh, IsFresh-nil, first_claim, attribute-eq-first_claim,
}
use vanitykeygen.Server.MatchRoutes.{handle_post_match}
use vanitykeygen.Server.Background.{reap}
use vanitykeygen.Server.Reaping.{reaped, lookup-reap}
use vanitykeygen.Server.Privacy.{redact, hub-handle_post_match-redact}
use vanitykeygen.Tests.{quiet, word_target, regex_target, hit}

abbrev two_targets : List Target
two_targets = regex_target ∷ word_target ∷ []

compiling : Unit {0}
unfolding compile_patterns add_targets add_target add_modes modes_of add_mode mode_word contains
    group has_group set_group same_key regex_pattern group_pattern join quote_meta contains_rune
    capitalize map_runes
compiling = tt

compile_two :
    compile_patterns quiet default_config two_targets
    ≡ record { pattern = "gt3"; match_fingerprint = false; match_authorized_key = true }
      ∷ record {
        pattern = "(?i)[\\/\\+](nugget)=?$";
        match_fingerprint = true;
        match_authorized_key = true;
      }
      ∷ record {
        pattern = "[\\/\\+](Nugget)=?$";
        match_fingerprint = true;
        match_authorized_key = true;
      }
      ∷ []
unfolding compiling
compile_two = refl

compile_patterns-eq-reference_example :
    compile_patterns quiet default_config two_targets ≡ reference quiet default_config two_targets
compile_patterns-eq-reference_example =
    compile_patterns-eq-reference quiet default_config two_targets

attribute-eq-first_claim_example :
    ((attribute quiet hit two_targets []).0 ≡ first_claim quiet hit two_targets)
    × IsFresh quiet (attribute quiet hit two_targets []).1
attribute-eq-first_claim_example =
    attribute-eq-first_claim quiet hit two_targets [] (IsFresh-nil quiet)

hub-handle_post_match-redact_example :
    (serve (handle_post_match quiet (some hit)) new_server).1.hub
    ≡ (serve (handle_post_match quiet (some (redact hit))) new_server).1.hub
hub-handle_post_match-redact_example = hub-handle_post_match-redact quiet hit new_server

abbrev one_row : ClientRow
one_row = record {
  id = "c1";
  hostname = "forge";
  version = "dev";
  seekers = pos 4;
  key_rate = 0;
  key_count = 10;
  last_seen = 850;
  status = "active";
}

abbrev one_client : Store
one_client = record empty_store { clients = one_row ∷ [] }

lookup-reap_example :
    lookup (λ r. r.id) "c1" (reap quiet one_client).clients
    ≡ reaped (quiet.now 0) (quiet.now 2) (lookup (λ r. r.id) "c1" one_client.clients)
lookup-reap_example =
    lookup-reap quiet one_client "c1" (record { once = λ k. ground arith }) refl refl (omega arith)
