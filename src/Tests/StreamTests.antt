-- ===== src/Tests/StreamTests.antt =====
-- Runs of an event stream, and its theorems at concrete inputs.
use vanitykeygen.Common.{ℕ, zero, suc, true, none, some, List, [], ◌∷◌, ◌++◌, ◌≡◌, refl, arith}
use vanitykeygen.Runtime.{Payload}
use vanitykeygen.Hub.{Hub, new_hub, subscribe, close, close_each, close_chan}
use vanitykeygen.Hub.Safety.{registered, new_hub-IsSound}
use vanitykeygen.Hub.Reach.{subscribe-IsSound}
use vanitykeygen.Server.Stream.{
  Stream, streaming, connect, Moment, own, other, receives, keep_alive, broadcasts, run_stream,
}
use vanitykeygen.Server.Stream.Ends.{Returned, stream_returns-close}
use vanitykeygen.Server.Stream.Order.{opened, accepted_by, connect-conserves}
use vanitykeygen.Server.Stream.Turns.{messages}
use vanitykeygen.Tests.{quiet}

abbrev listening : Hub
listening = (subscribe new_hub).1

abbrev receive_all : ℕ → List Moment
receive_all zero = []
receive_all (suc n) = own (receives true) ∷ receive_all n

abbrev busy : List Moment
busy =
    other (broadcasts "target_update" (Payload.deleted "7"))
    ∷ own (keep_alive true)
    ∷ other (broadcasts "target_update" (Payload.deleted "8"))
    ∷ own (receives true)
    ∷ []

abbrev after_close : Hub
unfolding close close_each close_chan
after_close = elim (close listening) [ none ↦ listening | some h ↦ h ]

listening-closes : close listening ≡ some after_close
unfolding close close_each close_chan subscribe
listening-closes = refl

listening-registered : registered (opened new_hub).subscription.chan listening.clients ≡ true
unfolding subscribe
listening-registered = refl

stream_returns-close_example :
    Returned (run_stream quiet (receive_all 65) (opened new_hub) after_close)
stream_returns-close_example =
    stream_returns-close quiet (receive_all 65) (opened new_hub) listening after_close
      (subscribe-IsSound new_hub new_hub-IsSound) listening-registered listening-closes
      (omega arith)

connect-conserves_example :
    (st st' : Stream) × (h1 h' : Hub) × (connect true true new_hub ≡ (streaming st, h1))
    × (run_stream quiet busy st h1 ≡ some (st', h'))
    × (st'.running ≡ true
        → messages st'.written ++ (h'.chans st'.subscription.chan).buffer
          ≡ accepted_by quiet busy st h1)
connect-conserves_example = connect-conserves quiet busy new_hub new_hub-IsSound
