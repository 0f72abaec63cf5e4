-- ===== src/Store/Clients/Roundtrip.antt =====
-- What a client reads back as after UpsertClient.
use mathlib.Core.Option
use vanitykeygen.Common.{
  ◌*◌, ◌/◌, String, Option, some, ◌==◌, ◌≡◌, ◌≢◌, refl, sym, ◌∙◌, arith, if◌then◌else◌, Bool-cases,
  inl, inr,
}
use vanitykeygen.Vkg.{ClientInfo}
use vanitykeygen.Runtime.{Env, ok}
use vanitykeygen.Table.{lookup, upsert}
use vanitykeygen.Table.Laws.{lookup-upsert}
use vanitykeygen.Store.{ClientRow, Store, format_time, parse_time, nanos}
use vanitykeygen.Store.Calls.{Begun, begin_cases, at_call}
use vanitykeygen.Store.Clients.{scan_client, client_row, upsert_client}
use vanitykeygen.Store.Integrity.Methods.{write_client}

-- The client with this ID, as ListClients reads it.
abbrev pub found : String → Store → Option ClientInfo
found id s = Option.map scan_client (lookup (λ (r : ClientRow). r.id) id s.clients)

-- the client with its time as the database holds it
abbrev pub whole_seconds : ClientInfo → ClientInfo
whole_seconds c = record c { last_seen = c.last_seen / nanos * nanos }

scan_client-client_row : (c : ClientInfo) → scan_client (client_row c) ≡ whole_seconds c
unfolding scan_client client_row format_time parse_time
scan_client-client_row c = refl

found-upsert :
    (c : ClientInfo) (s : Store) (k : String)
    → found k (record s { clients = upsert (λ r. r.id) (client_row c) s.clients })
      ≡ (if c.id == k then some (whole_seconds c) else found k s)
unfolding client_row
found-upsert c s k =
    rw (lookup-upsert (λ (x : ClientRow). x.id) k (client_row c) s.clients)
      (elim (Bool-cases (c.id == k)) [
        | inl same ↦ ground (arith, same, scan_client-client_row c)
        | inr other ↦ ground (arith, other)
      ])

-- If UpsertClient returns a client, that is the given one with an ID, the given one if there is
-- one, and a time; under its ID the table has exactly that client, its time cut to whole seconds,
-- and every other ID finds what it found before.
pub upsert_client-found :
    (env : Env) (c c' : ClientInfo) (s s' : Store) (k : String)
    → upsert_client env c s ≡ (ok c', s')
    → (c' ≡ record c { id = c'.id; last_seen = c'.last_seen })
      × (c.id ≢ "" → c'.id ≡ c.id)
      × (found k s' ≡ (if c'.id == k then some (whole_seconds c') else found k s))
unfolding upsert_client
upsert_client-found env c c' s s' k h =
    elim (begin_cases env c.id c.last_seen (write_client env c) s) [
      | Begun.failed e n out ↦ cc
      | Begun.wrote id t n given _ out ↦
          let new : ClientInfo = record c { id = id; last_seen = t } in
          let after : Store = record (at_call s n) {
            clients = upsert (λ r. r.id) (client_row new) s.clients;
          } in
          let wrote : write_client env c id t (at_call s n) ≡ (ok c', s') = sym out ∙ h in
          let same_c : new ≡ c' = cc in
          let same_s : after ≡ s' = cc in
          rw (← same_c, ← same_s) (refl, given, found-upsert new (at_call s n) k)
    ]
