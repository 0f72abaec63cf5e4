-- ===== src/Tests/RaceTests.antt =====
-- A DELETE of a target between the attribution of a match and its recording leaves a match of a target that
-- is not stored: handlePostMatch does the two in separate calls of the database.
use vanitykeygen.Common.{any, not, ◌&&◌, Bool, true, ◌==◌, ◌≡◌, refl}
use vanitykeygen.Server.{new_server}
use vanitykeygen.Regexp.{compile}
use vanitykeygen.Text.{contains}
use vanitykeygen.Tests.{quiet, hit, regex_target}
use vanitykeygen.Vkg.{Match}
use vanitykeygen.Store.{Store, MatchRow, empty_store, call, id_or_new, time_or_now}
use vanitykeygen.Store.Integrity.{has_target}
use vanitykeygen.Store.Matches.{record_match, insert_match, match_row}
use vanitykeygen.Store.Targets.{
  delete_target, transaction, delete_matches, delete_target_row, create_target, insert_target,
  target_row, scan_target, list_active_targets,
}
use vanitykeygen.Table.{insert, delete_where, has_key}
use vanitykeygen.Server.{Server}
use vanitykeygen.Server.MatchRoutes.{attribute_match, received, attributed}
use vanitykeygen.Server.Attribution.{attribute, target_hits, regex_hits, cached_compile, load}
use vanitykeygen.Runtime.{ok}

-- Two handlers of which one runs between the attribution and the recording of the other.
abbrev raced_match : Match
raced_match = record hit {
  matched_authorized_key = true;
  key = record hit.key { authorized_string = "ssh-ed25519 gt3" };
}

abbrev one_target : Server
one_target = record new_server { store = (create_target quiet regex_target empty_store).1 }

attributed_first : (attribute_match quiet (received raced_match) one_target).0 ≡ ok "7"
unfolding attribute_match attribute target_hits regex_hits cached_compile list_active_targets
    create_target insert_target insert scan_target target_row call id_or_new time_or_now has_key
    load compile contains
attributed_first = refl

abbrev raced : Store
raced =
    (record_match quiet (attributed "7" (received raced_match))
      (delete_target quiet "7" one_target.store).1).1

-- a match that names a target that is not stored
abbrev dangles : Store → MatchRow → Bool
dangles s m = not (m.target_id == "") && not (has_target m.target_id s.targets)

race_found : any (dangles raced) raced.matches ≡ true
unfolding record_match delete_target create_target insert_match insert_target insert transaction
    delete_matches delete_target_row delete_where has_key match_row target_row id_or_new time_or_now
    call
race_found = refl
