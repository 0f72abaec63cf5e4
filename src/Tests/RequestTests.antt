-- ===== src/Tests/RequestTests.antt =====
-- Sequences of requests, and the theorems on them at concrete inputs.
use vanitykeygen.Common.{◌<◌, ◌^◌, ◌≡◌, refl, arith, some, List, [], ◌∷◌}
use vanitykeygen.Server.{new_server, serve}
use vanitykeygen.Server.Compile.{default_config}
use vanitykeygen.Server.Requests.{Request, route, Happening, request, reaper_tick, happen_all}
use vanitykeygen.Server.Requests.Validity.{ServesValid, happen_all-ServesValid}
use vanitykeygen.Store.Integrity.{IsConsistent, empty_store-IsConsistent}
use vanitykeygen.Server.Requests.Integrity.{happen_all-IsConsistent}
use vanitykeygen.Server.Requests.Errors.{serve-fails_clean, serve-reads}
use vanitykeygen.Server.Clean.{IsError}
use vanitykeygen.Server.Lists.{IsListing, HasAtMost, serve-HasAtMost}
use vanitykeygen.Server.Limit.{parse_limit}
use vanitykeygen.Store.Clean.{rows}
use vanitykeygen.Store.{call}
use vanitykeygen.Store.Targets.{delete_target, transaction, delete_matches, delete_target_row}
use vanitykeygen.Server.TargetRoutes.{handle_delete_target}
use vanitykeygen.Tests.Sorting.{quiet-Sorts}
use vanitykeygen.Tests.{quiet, word_target, regex_target, hit}

abbrev session : List Happening
session =
    request (Request.create_target (some word_target))
    ∷ request (Request.create_target (some (record regex_target { pattern = "[" })))
    ∷ request (Request.post_match (some hit))
    ∷ reaper_tick
    ∷ request (Request.delete_target "7")
    ∷ []

happen_all-ServesValid_example :
    ServesValid quiet (happen_all quiet default_config session new_server)
happen_all-ServesValid_example = happen_all-ServesValid quiet default_config session new_server tt

happen_all-IsConsistent_example :
    IsConsistent (happen_all quiet default_config session new_server).store
happen_all-IsConsistent_example =
    happen_all-IsConsistent quiet default_config session new_server quiet-Sorts
      empty_store-IsConsistent

abbrev missing : Request
missing = Request.delete_target "9"

missing-IsError : IsError (serve (route quiet default_config missing) new_server).0
unfolding route handle_delete_target delete_target transaction delete_matches delete_target_row call
missing-IsError = omega arith

serve-fails_clean_example :
    rows (serve (route quiet default_config missing) new_server).1.store ≡ rows new_server.store
serve-fails_clean_example =
    serve-fails_clean quiet default_config missing new_server empty_store-IsConsistent refl
      missing-IsError

serve-reads_example :
    rows (serve (route quiet default_config Request.stats) new_server).1.store
    ≡ rows new_server.store
serve-reads_example = serve-reads quiet default_config Request.stats new_server tt

serve-HasAtMost_example :
    (0 < parse_limit "2" 100)
    × (parse_limit "2" 100 < 2 ^ 63)
    × HasAtMost
        (parse_limit "2" 100)
        (serve (route quiet default_config (Request.list_matches "" "2")) new_server).0
serve-HasAtMost_example =
    serve-HasAtMost quiet default_config (Request.list_matches "" "2") "2" new_server
      (IsListing.of_matches "" "2")
