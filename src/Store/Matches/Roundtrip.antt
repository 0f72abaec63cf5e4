-- ===== src/Store/Matches/Roundtrip.antt =====
-- What a match reads back as after RecordMatch, and how it is counted.
use mathlib.Core.Option
use vanitykeygen.Common.{
  ℕ, ◌+◌, ◌*◌, ◌/◌, String, ◌||◌, Option, none, some, List, [], ◌∷◌, ◌++◌, ◌==◌, ◌≡◌, ◌≢◌, refl,
  sym, ◌∙◌, arith, if◌then◌else◌, length, length-append, filter, Bool-cases, Option-cases, inl, inr,
}
use vanitykeygen.Vkg.{Match, Time}
use vanitykeygen.Runtime.{Env, ok}
use vanitykeygen.Table.{lookup, insert, has_key}
use vanitykeygen.Table.Laws.{lookup-insert}
use vanitykeygen.Store.{MatchRow, Store, format_time, parse_time, nanos, call, next_call}
use vanitykeygen.Store.Calls.{Begun, begin_cases, at_call}
use vanitykeygen.Store.Matches.{
  scan_match, match_row, insert_match, of_target, record_match, get_match, match_count,
}
use vanitykeygen.Store.Integrity.Methods.{write_match}

-- The match that GetMatch returns, and the number that MatchCount returns, if the database answers.
abbrev pub found : String → Store → Option Match
found id s = Option.map scan_match (lookup (λ (r : MatchRow). r.id) id s.matches)

abbrev pub counted : String → Store → ℕ
counted id s = length (of_target id s.matches)

pub get_match_lem :
    (env : Env) (id : String) (s : Store)
    → env.fault s.calls ≡ none
    → (get_match env id s ≡ (ok (found id s), next_call s))
      × (match_count env id s ≡ (ok (counted id s), next_call s))
unfolding get_match match_count call
get_match_lem env id s h = (ground (arith, h), ground (arith, h))

-- the match with its time as the database holds it
abbrev pub whole_seconds : Match → Match
whole_seconds m = record m { timestamp = m.timestamp / nanos * nanos }

scan_match-match_row : (m : Match) → scan_match (match_row m) ≡ whole_seconds m
unfolding scan_match match_row format_time parse_time
scan_match-match_row m = refl

count_concat :
    (id : String) (rows : List MatchRow) (r : MatchRow)
    → length (filter (λ m. m.target_id == id) (rows ++ r ∷ []))
      ≡ length (filter (λ m. m.target_id == id) rows) + (if r.target_id == id then 1 else 0)
count_concat id [] r = ground arith
count_concat id (x ∷ rows) r = ground (arith, count_concat id rows r)

of_target-concat :
    (id : String) (rows : List MatchRow) (r : MatchRow)
    → length (of_target id (rows ++ r ∷ []))
      ≡ length (of_target id rows) + (if id == "" || r.target_id == id then 1 else 0)
unfolding of_target
of_target-concat id rows r = elim (Bool-cases (id == "")) [
  | inl all ↦ rw all (length-append rows (r ∷ []))
  | inr one ↦ rw one (count_concat id rows r)
]

-- What a successful RecordMatch means, for every match and every target.
pub record IsRecorded (s s' : Store) (m : Match) : Type 0 where
  pub match : (k : String) → found k s' ≡ (if m.id == k then some (whole_seconds m) else found k s)
  pub number :
      (id : String)
      → counted id s' ≡ counted id s + (if id == "" || m.target_id == id then 1 else 0)

insert-rows :
    (r : MatchRow) (rows rows' : List MatchRow)
    → insert (λ x. x.id) r rows ≡ some rows'
    → rows ++ r ∷ [] ≡ rows'
unfolding insert
insert-rows r rows rows' added = elim (Bool-cases (has_key (λ (x : MatchRow). x.id) r.id rows)) [
  | inl taken ↦ absurd (ground (arith, taken))
  | inr free ↦ ground arith
]

inserted-IsRecorded :
    (m : Match) (s : Store) (rows : List MatchRow)
    → insert (λ x. x.id) (match_row m) s.matches ≡ some rows
    → IsRecorded s (record s { matches = rows }) m
unfolding match_row
inserted-IsRecorded m s rows added = record {
  match = λ k.
      rw (lookup-insert (λ (x : MatchRow). x.id) k s.matches rows (match_row m) added)
        (elim (Bool-cases (m.id == k)) [
          | inl same ↦ ground (arith, same, scan_match-match_row m)
          | inr other ↦ ground (arith, other)
        ]);
  number = λ id.
      rw (← insert-rows (match_row m) s.matches rows added)
        (of_target-concat id s.matches (match_row m));
}

write_match-IsRecorded :
    (env : Env) (m m' : Match) (id : String) (t : Time) (s s' : Store)
    → write_match env m id t s ≡ (ok m', s')
    → (m' ≡ record m { id = id; timestamp = t }) × IsRecorded s s' m'
unfolding insert_match
write_match-IsRecorded env m m' id t s s' h =
    elim (Option-cases
      (insert (λ x. x.id) (match_row (record m { id = id; timestamp = t })) s.matches)) [
        | inl taken ↦ ground (arith, taken)
        | inr (rows, added) ↦
            let new : Match = record m { id = id; timestamp = t } in
            let wrote : write_match env m id t s ≡ (ok new, record s { matches = rows }) =
              rw (insert_match, added) refl in
            let same_m : new ≡ m' = cc in
            let same_s : record s { matches = rows } ≡ s' = cc in
            rw (← same_m, ← same_s) (refl, inserted-IsRecorded new s rows added)
      ]

-- If RecordMatch returns a match, that is the given one with an ID, the given one if there is one,
-- and a time; under its ID it is found, its time cut to whole seconds, every other ID finds what it
-- found before, and the number of matches is greater by one for its target and over all, and as
-- before for every other target.
pub record_match-IsRecorded :
    (env : Env) (m m' : Match) (s s' : Store)
    → record_match env m s ≡ (ok m', s')
    → (m' ≡ record m { id = m'.id; timestamp = m'.timestamp })
      × (m.id ≢ "" → m'.id ≡ m.id)
      × IsRecorded s s' m'
unfolding record_match
record_match-IsRecorded env m m' s s' h =
    elim (begin_cases env m.id m.timestamp (write_match env m) s) [
      | Begun.failed e n out ↦ cc
      | Begun.wrote id t n given _ out ↦
          let (same, is) = write_match-IsRecorded env m m' id t (at_call s n) s' (sym out ∙ h) in
          (
            rw same refl,
            λ some_id. rw same (given some_id),
            record { match = is.match; number = is.number },
          )
    ]
