-- ===== src/Hub/Safety.antt =====
-- What holds of the hub in every state that its operations reach, in any order: no send on a closed
-- channel, no channel closed twice, and no buffer beyond its capacity.
use vanitykeygen.Common.{
  ℕ, ◌≤◌, ◌<◌, String, Bool, true, false, not, ◌&&◌, ◌||◌, some, List, [], ◌∷◌, ◌++◌, eqb, ltb,
  if◌then◌else◌, length, any, ◌≡◌, refl, ◌∙◌, ap, arith,
}
use vanitykeygen.Hub.{
  Hub, capacity, new_hub, set_chan, close_chan, remove, close_each, close, offer, offer_each,
}

-- whether a channel is registered
abbrev pub registered : ℕ → List ℕ → Bool
registered ch clients = any (λ j. eqb j ch) clients

-- no channel stands twice
abbrev pub IsDistinct : List ℕ → Type 0
IsDistinct [] = Unit
IsDistinct (ch ∷ rest) = (registered ch rest ≡ false) × IsDistinct rest

pub record IsSound (h : Hub) : Type 0 where
  pub live : (ch : ℕ) → registered ch h.clients ≡ true → (h.chans ch).closed ≡ false
  pub made : (ch : ℕ) → registered ch h.clients ≡ true → ch < h.next
  pub distinct : IsDistinct h.clients
  pub bounded : (ch : ℕ) → length (h.chans ch).buffer ≤ capacity
  pub ended : h.closed ≡ true → h.clients ≡ []

pub new_hub-IsSound : IsSound new_hub
new_hub-IsSound = record {
  live = λ ch r. refl;
  made = λ ch r. cc;
  distinct = tt;
  bounded = λ ch. omega arith;
  ended = λ e. refl;
}

pub registered-remove :
    (ch j : ℕ) (clients : List ℕ)
    → registered j (remove ch clients) ≡ (not (eqb j ch) && registered j clients)
registered-remove ch j [] = ground arith
registered-remove ch j (i ∷ clients) = ground (arith, registered-remove ch j clients)

pub remove-IsDistinct :
    (ch : ℕ) (clients : List ℕ) → IsDistinct clients → IsDistinct (remove ch clients)
remove-IsDistinct ch [] d = tt
remove-IsDistinct ch (i ∷ clients) (n, d) =
    ground (arith, remove-IsDistinct ch clients d, registered-remove ch i clients)

pub registered_cong :
    (i j : ℕ) (clients : List ℕ) → eqb i j ≡ true → registered i clients ≡ registered j clients
registered_cong i j clients e =
    let same : i ≡ j = ground arith in ap (λ k. registered k clients) same

-- The state after one round of the loop of Close.
abbrev closed_one : ℕ → Hub → Hub
closed_one ch h = record h {
  chans = set_chan ch (record (h.chans ch) { closed = true }) h.chans;
  clients = remove ch h.clients;
}

close_each_cons :
    (ch : ℕ) (rest : List ℕ) (h : Hub)
    → (h.chans ch).closed ≡ false
    → close_each (ch ∷ rest) h ≡ close_each rest (closed_one ch h)
unfolding close_each close_chan
close_each_cons ch rest h e = rw (e, close_each)

live_rest :
    (ch : ℕ) (rest : List ℕ) (h : Hub)
    → registered ch rest ≡ false
    → ((j : ℕ) → registered j (ch ∷ rest) ≡ true → (h.chans j).closed ≡ false)
    → (j : ℕ) → registered j rest ≡ true
    → ((closed_one ch h).chans j).closed ≡ false
live_rest ch rest h once live j r = ground (arith, live j, once, registered_cong j ch rest)

-- Closing each of some distinct open channels succeeds: they are closed and deleted, and nothing else
-- changes.
close_each_lem :
    (chs : List ℕ) (h : Hub)
    → IsDistinct chs
    → ((ch : ℕ) → registered ch chs ≡ true → (h.chans ch).closed ≡ false)
    → (h' : Hub) × (close_each chs h ≡ some h')
      × ((ch : ℕ) → (h'.chans ch).buffer ≡ (h.chans ch).buffer)
      × ((ch : ℕ) → (h'.chans ch).closed ≡ (registered ch chs || (h.chans ch).closed))
      × ((ch : ℕ) → registered ch h'.clients ≡ (not (registered ch chs) && registered ch h.clients))
      × (h'.closed ≡ h.closed)
      × (h'.next ≡ h.next)
unfolding close_each close_chan
close_each_lem [] h d live = (h, refl, λ ch. refl, λ ch. refl, λ ch. refl, refl, refl)
close_each_lem (ch ∷ rest) h (once, d) live =
    let open_now : (h.chans ch).closed ≡ false = live ch (ground arith) in
    let (h', done, buffers, closes, kept, shut, next) =
      close_each_lem rest (closed_one ch h) d (live_rest ch rest h once live) in
    (
      h',
      close_each_cons ch rest h open_now ∙ done,
      λ j. ground (arith, buffers j),
      λ j. ground (arith, closes j),
      λ j. ground (arith, kept j, registered-remove ch j h.clients),
      shut,
      next,
    )

registered_none : (clients : List ℕ) → ((ch : ℕ) → registered ch clients ≡ false) → clients ≡ []
registered_none [] h = refl
registered_none (ch ∷ rest) h = ground (arith, h ch)

-- From every sound hub Close succeeds: every registered channel is closed, what it buffers is kept,
-- no channel is registered any more, and the hub is sound and closed.
pub close_lem :
    (h : Hub)
    → IsSound h
    → (h' : Hub) × (close h ≡ some h')
      × IsSound h'
      × (h'.closed ≡ true)
      × (h'.clients ≡ [])
      × ((ch : ℕ) → (h'.chans ch).buffer ≡ (h.chans ch).buffer)
      × ((ch : ℕ) → (h'.chans ch).closed ≡ (registered ch h.clients || (h.chans ch).closed))
unfolding close
close_lem h sound =
    let (h', done, buffers, closes, kept, shut, next) =
      close_each_lem h.clients (record h { closed = true }) sound.distinct sound.live in
    let none_left : h'.clients ≡ [] = registered_none h'.clients (λ ch. ground (arith, kept ch)) in
    (
      h',
      done,
      record {
        live = λ ch r. ground (arith, kept ch);
        made = λ ch r. ground (arith, kept ch);
        distinct = rw none_left tt;
        bounded = λ ch. ground (arith, buffers ch, sound.bounded ch);
        ended = λ e. none_left;
      },
      shut,
      none_left,
      buffers,
      closes,
    )

pub close-next : (h h' : Hub) → IsSound h → close h ≡ some h' → h'.next ≡ h.next
unfolding close
close-next h h' sound shut =
    let (k, done, _, _, _, _, next) =
      close_each_lem h.clients (record h { closed = true }) sound.distinct sound.live in
    let same : k ≡ h' = ground (arith, done, shut) in rw (← same) next

-- The state after one round of the loop of Broadcast.
abbrev offered : String → ℕ → Hub → Hub
offered msg ch h =
    if ltb (length (h.chans ch).buffer) capacity
    then record h {
      chans =
          set_chan ch (record (h.chans ch) { buffer = (h.chans ch).buffer ++ msg ∷ [] }) h.chans;
    }
    else h

offer_each_cons :
    (msg : String) (ch : ℕ) (rest : List ℕ) (h : Hub)
    → (h.chans ch).closed ≡ false
    → offer_each msg (ch ∷ rest) h ≡ offer_each msg rest (offered msg ch h)
unfolding offer_each offer
offer_each_cons msg ch rest h e = rw (e, offer_each)

closed-offered :
    (msg : String) (ch j : ℕ) (h : Hub) → ((offered msg ch h).chans j).closed ≡ (h.chans j).closed
closed-offered msg ch j h = ground arith

-- Offering a message to some distinct open channels succeeds: each of them with room has it at its end.
pub offer_each_lem :
    (msg : String) (chs : List ℕ) (h : Hub)
    → IsDistinct chs
    → ((ch : ℕ) → registered ch chs ≡ true → (h.chans ch).closed ≡ false)
    → (h' : Hub) × (offer_each msg chs h ≡ some h')
      × ((ch : ℕ)
          → (h'.chans ch).buffer ≡ (
              if registered ch chs && ltb (length (h.chans ch).buffer) capacity
              then (h.chans ch).buffer ++ msg ∷ []
              else (h.chans ch).buffer))
      × ((ch : ℕ) → (h'.chans ch).closed ≡ (h.chans ch).closed)
      × (h'.clients ≡ h.clients)
      × (h'.closed ≡ h.closed)
      × (h'.next ≡ h.next)
unfolding offer_each
offer_each_lem msg [] h d live = (h, refl, λ ch. refl, λ ch. refl, refl, refl, refl)
offer_each_lem msg (ch ∷ rest) h (once, d) live =
    let (h', done, buffers, closes, clients, shut, next) =
      offer_each_lem msg rest (offered msg ch h) d
        (λ j r. closed-offered msg ch j h ∙ live j (ground arith)) in
    (
      h',
      offer_each_cons msg ch rest h (live ch (ground arith)) ∙ done,
      λ j. ground (arith, buffers j, once, registered_cong j ch rest),
      λ j. ground (arith, closes j),
      ground (arith, clients),
      ground (arith, shut),
      ground (arith, next),
    )
