-- ===== src/Client/Run/Identity.antt =====
-- pkg/client/main.go: under which name a client works.
use vanitykeygen.Common.{
  ℕ, ◌%◌, ◌^◌, count, suc, ◌⊎◌, String, List, ◌≡◌, refl, Bool-cases, inl, inr,
}
use vanitykeygen.Text.{append}
use vanitykeygen.Runtime.{ok, err}
use vanitykeygen.Client.{Client, Net, Event, register, fetch_targets}
use vanitykeygen.Client.Run.{
  Settings, with_env, new_client, start, launched, run_client, makes_channel, Ended, not_started,
  panicked, stopped,
}
use vanitykeygen.Client.Run.Answers.{
  IsRegistered, Registered, Fetched, register_cases, fetch_targets_cases,
}
use vanitykeygen.Client.Run.Seekers.{
  IsLaunched, IsRefused, makes_channel-IsLaunched, makes_channel-IsRefused,
}
use vanitykeygen.Client.Run.Named.{is_key, IsNamed, looped-IsNamed}

-- How Run ended: with the error of the request that failed; with the panic of make; or in its main loop.
abbrev pub Works : Net → ℕ → Client → List Event → Ended → Type 0
Works server most made events (not_started e) =
    ((e' : String) × (c' : Client) × (e ≡ append "registration failed: " e')
      × (register server made ≡ (err e', c')))
    ⊎ ((e' id : String) × (c' : Client) × IsRegistered server made id
        × (e ≡ append "initial target fetch: " e')
        × (fetch_targets server (record made { client_id = id; requests = suc made.requests })
            ≡ (err e', c')))
Works server most made events panicked =
    (id : String) × IsRegistered server made id × IsRefused most made.seekers
Works server most made events (stopped ids run) =
    (id : String) × IsRegistered server made id
    × IsNamed server id made (count is_key events % 2 ^ 64) run.client
    × IsLaunched most made.seekers ids

launched-Works :
    (net : String → Net) (most : ℕ) (server : Net) (made : Client) (events : List Event)
    → made.key_count ≡ 0
    → Works server most made events (launched net most server (start net most server made) events)
unfolding start
launched-Works net most server made events fresh = elim (register_cases server made) [
  | Registered.refused e c' out ↦ rw out (inl (e, c', refl, out))
  | Registered.named id is out ↦
      let c : Client = record made { client_id = id; requests = suc made.requests } in
      elim (fetch_targets_cases server c) [
        | Fetched.failed e out' ↦ rw (out, out') (inr (e, id, _, is, refl, out'))
        | Fetched.fetched ps served out' ↦ elim (Bool-cases (makes_channel most made.seekers)) [
          | inr refused ↦
              rw (out, out', refused) (id, is, makes_channel-IsRefused most made.seekers refused)
          | inl makes ↦
              rw (out, out', makes)
                (
                  id,
                  is,
                  looped-IsNamed server id made events _ (record {
                    counted = fresh;
                    client_id = refl;
                    hostname = refl;
                    version = refl;
                    seekers = refl;
                    patterns = ps;
                    holds = refl;
                    served = served;
                  }),
                  makes_channel-IsLaunched most made.seekers makes,
                )
        ]
      ]
]

-- Where the flags parse, Run of the client ends with the error of the registration or, once
-- registered, of the first fetch; or it panics in make, where the number of seekers is negative or
-- twice it is too large for a channel; or it gets to its main loop with one seeker for each number
-- from 1 to the setting, of which twice is a capacity that the runtime allocates, or with none for
-- a negative number below -2^62, of which twice wraps. Then, whatever the loop takes and the
-- seekers count, the client has the ID that the server gave it in a successful response to its
-- registration, its own host name, version and number of seekers, holds patterns that the server
-- gave in a successful response, and has counted, modulo 2^64, every key that the seekers did.
pub run_client-Works :
    (net : String → Net) (most : ℕ) (getenv : String → String) (settings : Settings)
    (hostname version : String) (events : List Event)
    → Works
        (net (with_env getenv settings).server_uri)
        most
        (new_client (with_env getenv settings) hostname version)
        events
        (run_client net most getenv (ok settings) hostname version events)
unfolding run_client new_client
run_client-Works net most getenv settings hostname version events =
    launched-Works net most _ (new_client (with_env getenv settings) hostname version) events refl
