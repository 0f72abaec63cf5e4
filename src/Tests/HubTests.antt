-- ===== src/Tests/HubTests.antt =====
-- Runs of the hub, and its theorems at concrete inputs.
use vanitykeygen.Common.{ℕ, ◌≤◌, String, true, ◌||◌, none, some, [], length, ◌≡◌, ◌≢◌, refl}
use vanitykeygen.Runtime.{Payload}
use vanitykeygen.Hub.{Hub, new_hub, capacity, subscribe, broadcast, close}
use vanitykeygen.Hub.Safety.{IsSound, registered, close_lem}
use vanitykeygen.Hub.Delivery.{IsBroadcast, sent, broadcast_lem}
use vanitykeygen.Hub.Reach.{Step, Reach, Reach-IsSound, Reach-never_panics}
use vanitykeygen.Tests.{quiet}

-- one subscriber
abbrev listening : Hub
listening = (subscribe new_hub).1

listening-Reach : Reach quiet listening
listening-Reach = Reach.later Reach.start (Step.subscribes refl)

Reach-never_panics_example :
    (close listening ≢ none)
    × ((event_type : String) (payload : Payload)
        → broadcast quiet event_type payload listening ≢ none)
    × ((ch : ℕ) → length (listening.chans ch).buffer ≤ capacity)
    × (listening.closed ≡ true → listening.clients ≡ [])
Reach-never_panics_example = Reach-never_panics quiet listening listening-Reach

broadcast_lem_example :
    (h' : Hub) × (broadcast quiet "target_update" (Payload.deleted "7") listening ≡ some h')
    × IsSound h'
    × IsBroadcast listening h' (sent quiet "target_update" (Payload.deleted "7"))
broadcast_lem_example =
    broadcast_lem quiet "target_update" (Payload.deleted "7") listening
      (Reach-IsSound listening-Reach)

close_lem_example :
    (h' : Hub) × (close listening ≡ some h')
    × IsSound h'
    × (h'.closed ≡ true)
    × (h'.clients ≡ [])
    × ((ch : ℕ) → (h'.chans ch).buffer ≡ (listening.chans ch).buffer)
    × ((ch : ℕ)
        → (h'.chans ch).closed ≡ (registered ch listening.clients || (listening.chans ch).closed))
close_lem_example = close_lem listening (Reach-IsSound listening-Reach)
