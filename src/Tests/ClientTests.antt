-- ===== src/Tests/ClientTests.antt =====
-- Runs of the client, and its theorems at concrete inputs.
use mathlib.Core.List.{Memᴰ, Perm}
use mathlib.Core.List.Perm
use vanitykeygen.Common.{
  pos, ◌+◌, ◌≤◌, length, ◌%◌, ◌^◌, true, false, some, List, [], ◌∷◌, ◌≡◌, ◌↔◌, refl, map, All, eqb,
}
use vanitykeygen.Vkg.{CompiledPattern}
use vanitykeygen.Runtime.{ok, err}
use vanitykeygen.Regexp.{compile}
use vanitykeygen.Keygen.{KeyResult}
use vanitykeygen.Client.Seeker.{
  SeekerStatus, Turn, new_seeker, patterns_match, recompile, sync, send, match_string, match_status,
  tick_status, test_key, test_keys, count_key, tick, tried, search_compiled, seek, seeker,
  hits_fingerprint, hits_authorized_key,
}
use vanitykeygen.Client.{
  Net, Client, Running, Event, target_tick, status_update, main_loop, match_of,
}
use vanitykeygen.Client.Totals.{
  statuses, Worker, all_sent, all_unsent, all_counted, main_loop-counts_keys,
}
use vanitykeygen.Client.Drains.{seeker-drains}
use vanitykeygen.Client.InStep.{patterns_match-recompile}
use vanitykeygen.Client.Genuine.{Compiles, compiled_of, sync-eq-served}
use vanitykeygen.Client.Reports.{IsGenuine, FromTurn, seeker-IsGenuine}
use vanitykeygen.Client.Attributed.{NamesClaimant, reported_match-IsAttributed}
use vanitykeygen.Server.Compile.{regex_pattern}
use vanitykeygen.Server.Attribution.{attribute}
use vanitykeygen.Server.Attribution.Reference.{IsFresh-nil}
use vanitykeygen.Text.{contains, has_prefix}
use vanitykeygen.Tests.{quiet, regex_target, word_target}

abbrev pub found_key : KeyResult
found_key = record {
  public_key = 1 ∷ [];
  private_key = 2 ∷ [];
  authorized_key = "ssh-ed25519 AAAgt3";
  fingerprint = "xyz";
  encoded_key = 3 ∷ [];
}

abbrev other_key : KeyResult
other_key = record found_key { authorized_key = "ssh-ed25519 BBBB" }

abbrev pub gt3 : CompiledPattern
gt3 = record { pattern = "gt3"; match_fingerprint = false; match_authorized_key = true }

abbrev bad : CompiledPattern
bad = record { pattern = "["; match_fingerprint = true; match_authorized_key = false }

-- a turn that generates a key that no pattern matches, and one whose key matches
abbrev pub misses : Turn
misses = record {
  cancelled = false;
  patterns = gt3 ∷ [];
  generated = ok other_key;
  ticked = false;
  now = λ n. 100 + n;
  taken = λ n. true;
}

abbrev pub finds : Turn
finds = record misses { generated = ok found_key }

-- the context is done while the status of a tick waits
abbrev pub stops : Turn
stops = record misses { ticked = true; taken = λ n. eqb n 0 }

abbrev pub turns : List Turn
turns = misses ∷ finds ∷ misses ∷ stops ∷ misses ∷ []

abbrev pub found : SeekerStatus
found = record {
  timestamp = 100;
  sid = 1;
  key_count = 2;
  match_string = "gt3";
  matched_authorized_key = true;
  matched_fingerprint = false;
  key = found_key;
}

running : Unit {0}
unfolding seeker seek search_compiled tried tick count_key test_keys test_key send match_status
    tick_status match_string hits_fingerprint hits_authorized_key sync recompile patterns_match
    compile contains has_prefix
running = tt

-- Four keys are generated: the match reports two, and two are not sent.
seeker_test : (seeker quiet 1 turns new_seeker).sent ≡ found ∷ []
unfolding running
seeker_test = refl

seeker_counted_test : (seeker quiet 1 turns new_seeker).counted ≡ 4
unfolding running
seeker_counted_test = refl

-- A pattern that does not compile keeps the seeker compiling in every turn.
never_in_step_test : patterns_match (sync quiet (gt3 ∷ bad ∷ []) []) (gt3 ∷ bad ∷ []) ≡ false
unfolding running
never_in_step_test = refl

abbrev pub offline : Net
offline = record {
  get_patterns = λ n. err "connection refused";
  post_register = λ n r. err "connection refused";
  post_heartbeat = λ n h. err "connection refused";
  post_match = λ n m. ok 201;
  short_hash = λ s. s;
  text_of = λ bs. "PEM";
  status_text = λ n. "status";
  rate = λ n d. 0;
}

abbrev pub seeking : Client
seeking = record {
  client_id = "c1";
  hostname = "forge";
  version = "dev";
  seekers = pos 2;
  patterns = some (gt3 ∷ []);
  key_count = 4;
  last_heartbeat = 0;
  last_key_count = 0;
  requests = 2;
}

abbrev at_start : Running
at_start = record { client = seeking; stats = record { key_count = 0; hit_count = 0 } }

abbrev workers : List Worker
workers = (1, turns) ∷ (2, misses ∷ []) ∷ []

abbrev events : List Event
events = target_tick ∷ status_update found ∷ []

delivered : Perm (statuses events) (all_sent quiet workers)
unfolding running statuses all_sent
delivered = Perm.refl (found ∷ [])

main_loop-counts_keys_example :
    ((main_loop offline events at_start).stats.key_count + all_unsent quiet workers) % 2 ^ 64
    ≡ all_counted quiet workers % 2 ^ 64
main_loop-counts_keys_example =
    main_loop-counts_keys offline quiet workers events at_start refl delivered

sync-eq-served_example : sync quiet (gt3 ∷ []) (compiled_of bad ∷ []) ≡ map compiled_of (gt3 ∷ [])
sync-eq-served_example =
    sync-eq-served quiet (gt3 ∷ []) (compiled_of bad ∷ []) (refl, tt) (refl, tt)

seeker-IsGenuine_example : All (IsGenuine quiet turns) (seeker quiet 1 turns new_seeker).sent
seeker-IsGenuine_example = seeker-IsGenuine quiet 1 turns

from_finds : FromTurn quiet finds found
unfolding running
from_finds = record {
  generated = refl;
  pattern = gt3;
  served = Memᴰ.head refl;
  fingerprint = refl;
  authorized_key = refl;
  one = refl;
}

pattern_of_target : from_finds.pattern ≡ regex_pattern regex_target
unfolding regex_pattern from_finds
pattern_of_target = refl

reported_match-IsAttributed_example :
    NamesClaimant quiet
      (match_of offline found seeking)
      (word_target ∷ regex_target ∷ [])
      ((attribute quiet (match_of offline found seeking) (word_target ∷ regex_target ∷ []) []).0)
reported_match-IsAttributed_example =
    reported_match-IsAttributed quiet offline seeking finds found (word_target ∷ regex_target ∷ [])
      regex_target [] from_finds (Memᴰ.tail (Memᴰ.head refl)) refl refl pattern_of_target
      (IsFresh-nil quiet)

patterns_match-recompile_example :
    (patterns_match (recompile quiet (gt3 ∷ bad ∷ [])) (gt3 ∷ bad ∷ []) ≡ true)
    ↔ All (Compiles quiet) (gt3 ∷ bad ∷ [])
patterns_match-recompile_example = patterns_match-recompile quiet (gt3 ∷ bad ∷ [])

abbrev cancelled : Turn
cancelled = record stops { cancelled = true }

-- how much the seeker has sent after a turn that finds a key and the next, with the context done
seeker-drains_example :
    ((seeker quiet 1 (finds ∷ cancelled ∷ misses ∷ []) new_seeker).running ≡ false)
    × (length (seeker quiet 1 (finds ∷ cancelled ∷ misses ∷ []) new_seeker).sent
        ≤ length new_seeker.sent + length finds.patterns + 1)
seeker-drains_example = seeker-drains quiet 1 finds cancelled (misses ∷ []) new_seeker refl refl
