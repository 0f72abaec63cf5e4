-- ===== src/Client/Totals.antt =====
-- The client's total over all its seekers, whatever the order in which the channel gave the statuses.
use native.Mathlib.Nat.{ℕ_set}
use mathlib.Core.Logic.{∥∥₁_elim}
use mathlib.Core.List.{Perm, Permᴰ}
use vanitykeygen.Common.{
  ℕ, ◌+◌, ◌%◌, ◌^◌, List, [], ◌∷◌, ◌++◌, ◌≡◌, refl, ap, ◌∙◌, arith, Bool-cases, inl, inr, ◌==◌,
}
use vanitykeygen.Runtime.{Env}
use vanitykeygen.Client.Seeker.{SeekerStatus, Turn, Seeker, new_seeker, seeker}
use vanitykeygen.Client.Counting.{total, Balanced, seeker-Balanced}
use vanitykeygen.Client.{
  Net, Event, target_tick, stats_tick, key_counted, heartbeat_tick, status_update, Running,
  handle_event, main_loop,
}

-- the statuses among what the main loop takes
unfoldable pub statuses : List Event → List SeekerStatus
statuses [] = []
statuses (target_tick ∷ rest) = statuses rest
statuses (stats_tick ∷ rest) = statuses rest
statuses (key_counted ∷ rest) = statuses rest
statuses (heartbeat_tick now ∷ rest) = statuses rest
statuses (status_update s ∷ rest) = s ∷ statuses rest

total-Permᴰ : {a b : List SeekerStatus} → Permᴰ a b → total a ≡ total b
unfolding total
total-Permᴰ Permᴰ.nil = refl
total-Permᴰ (Permᴰ.cons e p) = omega (arith, ap (λ s. s.key_count) e, total-Permᴰ p)
total-Permᴰ (Permᴰ.swap e f) = omega (arith, ap (λ s. s.key_count) e, ap (λ s. s.key_count) f)
total-Permᴰ (Permᴰ.trans p q) = total-Permᴰ p ∙ total-Permᴰ q

total-Perm : {a b : List SeekerStatus} → Perm a b → total a ≡ total b
total-Perm p = ∥∥₁_elim p (ℕ_set _ _) total-Permᴰ

total-concat : (a b : List SeekerStatus) → total (a ++ b) ≡ total a + total b
unfolding total
total-concat [] b = omega arith
total-concat (s ∷ a) b = omega (arith, total-concat a b)

start-Balanced : Balanced new_seeker
unfolding total
start-Balanced = refl

handle_status-key_count :
    (net : Net) (s : SeekerStatus) (run : Running)
    → (handle_event net (status_update s) run).stats.key_count
      ≡ (run.stats.key_count + s.key_count) % 2 ^ 64
unfolding handle_event
handle_status-key_count net s run = elim (Bool-cases (s.key.fingerprint == "")) [
  | inl tick ↦ rw (handle_event, tick) refl
  | inr hit ↦ rw (handle_event, hit) refl
]

-- The main loop adds up the statuses.
main_loop-total :
    (net : Net) (events : List Event) (run : Running)
    → (main_loop net events run).stats.key_count % 2 ^ 64
      ≡ (run.stats.key_count + total (statuses events)) % 2 ^ 64
unfolding main_loop statuses total
main_loop-total net [] run = omega arith
main_loop-total net (target_tick ∷ rest) run = main_loop-total net rest _
main_loop-total net (stats_tick ∷ rest) run = main_loop-total net rest _
main_loop-total net (key_counted ∷ rest) run = main_loop-total net rest _
main_loop-total net (heartbeat_tick now ∷ rest) run = main_loop-total net rest _
main_loop-total net (status_update s ∷ rest) run = omega (
  arith,
  main_loop-total net rest (handle_event net (status_update s) run),
  handle_status-key_count net s run,
)

-- A seeker by its number and the turns that it meets.
abbrev pub Worker : Type 0
Worker = ℕ × List Turn

module _ (env : Env) where
  -- the seeker afterwards
  abbrev pub worked : Worker → Seeker
  worked w = seeker env (w.0) (w.1) new_seeker

  -- what all of them sent, counted, and have not sent yet
  unfoldable pub all_sent : List Worker → List SeekerStatus
  all_sent [] = []
  all_sent (w ∷ ws) = (worked w).sent ++ all_sent ws

  unfoldable pub all_counted : List Worker → ℕ
  all_counted [] = 0
  all_counted (w ∷ ws) = (worked w).counted + all_counted ws

  unfoldable pub all_unsent : List Worker → ℕ
  all_unsent [] = 0
  all_unsent (w ∷ ws) = (worked w).key_count + all_unsent ws

  total-all_sent :
      (ws : List Worker) → (total (all_sent ws) + all_unsent ws) % 2 ^ 64 ≡ all_counted ws % 2 ^ 64
  unfolding all_sent all_counted all_unsent total
  total-all_sent [] = refl
  total-all_sent (w ∷ ws) =
      let balanced = seeker-Balanced env (w.0) (w.1) new_seeker start-Balanced in
      omega (arith, total-all_sent ws, balanced, total-concat (worked w).sent (all_sent ws))

-- Once the main loop has taken every status that the seekers sent, in whatever order, its total
-- from 0 and what the seekers have not sent yet add up to what they added to keyCount, modulo 2^64.
pub main_loop-counts_keys :
    (net : Net) (env : Env) (workers : List Worker) (events : List Event) (run : Running)
    → run.stats.key_count ≡ 0
    → Perm (statuses events) (all_sent env workers)
    → ((main_loop net events run).stats.key_count + all_unsent env workers) % 2 ^ 64
      ≡ all_counted env workers % 2 ^ 64
main_loop-counts_keys net env workers events run fresh delivered =
    omega (
      arith,
      fresh,
      main_loop-total net events run,
      total-Perm delivered,
      total-all_sent env workers,
    )
