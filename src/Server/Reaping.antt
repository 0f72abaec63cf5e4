-- ===== src/Server/Reaping.antt =====
-- What one tick of clientReaper makes of every client.
use mathlib.Core.Option
use vanitykeygen.Common.{
  ℕ, suc, ◌+◌, ◌-◌, ◌*◌, ◌/◌, ◌≤◌, ltb, String, true, false, Option, none, some, List, ◌==◌, eq_iff,
  ◌≡◌, refl, sym, ap, ◌∙◌, if◌then◌else◌, arith, Bool-cases, inl, inr,
}
use vanitykeygen.Vkg.{Time}
use vanitykeygen.Runtime.{Env}
use vanitykeygen.Table.{lookup, delete_where, update_where, IsKeyed}
use vanitykeygen.Table.Keys.{unless, lookup-delete_where, lookup-update_where, update_where-IsKeyed}
use vanitykeygen.Store.{Store, ClientRow, format_time, call, now, nanos}
use vanitykeygen.Store.Clients.{
  is_stale, is_gone, set_offline, mark_offline_clients, delete_offline_clients,
}
use vanitykeygen.Server.Background.{reap, offline_after, deleted_after}

-- The row of a client after a tick that reads the clock as `t` and then as `u`.
abbrev pub reaped : Time → Time → Option ClientRow → Option ClientRow
reaped t u none = none
reaped t u (some r) =
    if ltb r.last_seen ((u - deleted_after) / nanos)
    then none
    else some (if ltb r.last_seen ((t - offline_after) / nanos) then set_offline r else r)

swept : Time → Time → List ClientRow → List ClientRow
swept t u rows =
    delete_where (is_gone ((u - deleted_after) / nanos))
      (update_where (is_stale ((t - offline_after) / nanos)) set_offline rows)

clients-reap :
    (env : Env) (s : Store)
    → env.fault (suc s.calls) ≡ none
    → env.fault (suc (suc (suc s.calls))) ≡ none
    → (reap env s).clients ≡ swept (env.now s.calls) (env.now (suc (suc s.calls))) s.clients
unfolding reap swept mark_offline_clients delete_offline_clients call now format_time
clients-reap env s f g = ground (arith, f, g)

-- By the two cutoffs, where the one for deleting is the earlier.
abbrev by_cutoffs : ℕ → ℕ → ClientRow → Option ClientRow
by_cutoffs a b r =
    if ltb r.last_seen b then none else some (if ltb r.last_seen a then set_offline r else r)

set_offline_again : (r : ClientRow) → (r.status == "offline") ≡ true → set_offline r ≡ r
set_offline_again r h i = record r { status = sym ((eq_iff r.status "offline").0 h) i }

stale_old :
    (a : ℕ) (r : ClientRow)
    → (r.status == "offline") ≡ false
    → ltb r.last_seen a ≡ true
    → is_stale a r ≡ true
unfolding is_stale
stale_old a r on old = rw (old, on)

row-by_cutoffs :
    (a b : ℕ) (r : ClientRow)
    → b ≤ a
    → unless (is_gone b) (some (if is_stale a r then set_offline r else r)) ≡ by_cutoffs a b r
unfolding is_gone
row-by_cutoffs a b r h = elim (Bool-cases (r.status == "offline")) [
  | inl off ↦ elim (Bool-cases (ltb r.last_seen a)) [
    | inl old ↦ unfold is_stale in ground (arith, off, old, set_offline_again r off)
    | inr new ↦ unfold is_stale in ground (arith, off, new)
  ]
  | inr on ↦ elim (Bool-cases (ltb r.last_seen a)) [
    | inl old ↦ rw (stale_old a r on old) (ground (arith, old))
    | inr new ↦ unfold is_stale in ground (arith, on, new)
  ]
]

row-reaped :
    (t u : Time) (r : ClientRow)
    → u ≤ t + 210 * nanos
    → unless
        (is_gone ((u - deleted_after) / nanos))
        (some (if is_stale ((t - offline_after) / nanos) r then set_offline r else r))
      ≡ reaped t u (some r)
row-reaped t u r h =
    row-by_cutoffs ((t - offline_after) / nanos) ((u - deleted_after) / nanos) r (omega arith)

row-swept :
    (t u : Time) (o : Option ClientRow)
    → u ≤ t + 210 * nanos
    → unless
        (is_gone ((u - deleted_after) / nanos))
        (Option.map (λ r. if is_stale ((t - offline_after) / nanos) r then set_offline r else r) o)
      ≡ reaped t u o
row-swept t u none h = refl
row-swept t u (some r) h = row-reaped t u r h

-- A reaper tick whose statements succeed, with the second clock reading at most 210 s after the
-- first and unique client IDs, deletes exactly the clients not seen for 5 minutes, sets those not
-- seen for 90 s offline, and leaves every other client as it was.
pub lookup-reap :
    (env : Env) (s : Store) (k : String)
    → IsKeyed (λ (r : ClientRow). r.id) s.clients
    → env.fault (suc s.calls) ≡ none
    → env.fault (suc (suc (suc s.calls))) ≡ none
    → env.now (suc (suc s.calls)) ≤ env.now s.calls + 210 * nanos
    → lookup (λ r. r.id) k (reap env s).clients
      ≡ reaped (env.now s.calls) (env.now (suc (suc s.calls))) (lookup (λ r. r.id) k s.clients)
unfolding swept
lookup-reap env s k keyed f g h =
    let t = env.now s.calls in
    let u = env.now (suc (suc s.calls)) in
    let stale = is_stale ((t - offline_after) / nanos) in
    ap (lookup (λ (r : ClientRow). r.id) k) (clients-reap env s f g)
    ∙ lookup-delete_where (λ (r : ClientRow). r.id) k (is_gone ((u - deleted_after) / nanos))
        (update_where stale set_offline s.clients)
        (update_where-IsKeyed (λ (r : ClientRow). r.id) stale set_offline s.clients (λ r. refl)
          keyed)
    ∙ ap (unless (is_gone ((u - deleted_after) / nanos)))
        (lookup-update_where (λ (r : ClientRow). r.id) k stale set_offline s.clients (λ r. refl))
    ∙ row-swept t u (lookup (λ r. r.id) k s.clients) h
