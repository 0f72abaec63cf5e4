-- ===== src/Store/Open.antt =====
-- pkg/store/store.go: New, which opens the database file, and Close.
use vanitykeygen.Common.{
  ℕ, String, Bool, true, false, ◌||◌, List, [], ◌∷◌, ◌++◌, map, ◌==◌, ◌≡◌, ◌↔◌, refl, eq_iff, arith,
  Bool-cases, inl, inr,
}
use vanitykeygen.Runtime.{Env, Outcome, ok, err, Action, pure, modify, ◌>>◌}
use vanitykeygen.Text.{append, contains}
use vanitykeygen.Text.Substrings.{Stands, Stands-contains, contains-Stands}
use vanitykeygen.Store.{Store, call}
use vanitykeygen.Store.Calls.{at_call, call_cases}

-- What New runs.
pub data Statement : Type 0 where
  pragma : String → Statement
  schema : Statement

-- The *sql.DB of a process, with the statements that New has run, and the tables of its file.
pub record Database : Type 0 where
  pub opened : Bool
  pub closed : Bool
  pub one_connection : Bool
  pub executed : List Statement
  pub store : Store

-- before the process has opened its file
abbrev pub unopened : Store → Database
unopened s = record {
  opened = false;
  closed = false;
  one_connection = false;
  executed = [];
  store = s;
}

-- isInMemoryDSN
unfoldable pub is_in_memory_dsn : String → Bool
is_in_memory_dsn dsn = (dsn == ":memory:") || contains dsn ":memory:"

abbrev pub pragmas : List String
pragmas = "journal_mode=WAL" ∷ "synchronous=NORMAL" ∷ "busy_timeout=5000" ∷ []

-- db.Close
abbrev pub close_db : Database → Database
close_db db = record db { closed = true }

abbrev on_store : {A : Type 0} → Outcome String A × Store → Database → Outcome String A × Database
on_store (r, s) db = (r, record db { store = s })

-- `if … err != nil { return nil, fmt.Errorf(context + ": %w", err) }`
abbrev pub failing_with :
    {A : Type 0} → String → Outcome String A × Database → Outcome String A × Database
failing_with context (ok a, db) = (ok a, db)
failing_with context (err e, db) = (err (append context (append ": " e)), db)

-- `if … err != nil { _ = db.Close(); return … }`
abbrev closing_on_error : {A : Type 0} → Outcome String A × Database → Outcome String A × Database
closing_on_error (ok a, db) = (ok a, db)
closing_on_error (err e, db) = (err e, close_db db)

module _ (env : Env) where
  -- sql.Open
  unfoldable pub sql_open : Action Database String (Unit {0})
  sql_open = do (λ db. on_store (call env db.store) db); modify (λ db. record db { opened = true })

  -- db.Exec of a statement that New runs; the tables that there are stay as they are
  unfoldable pub exec : Statement → Action Database String (Unit {0})
  exec statement = do
    (λ db. on_store (call env db.store) db)
    modify (λ db. record db { executed = db.executed ++ statement ∷ [] })

  -- the loop over the pragmas
  unfoldable pub exec_pragmas : List String → Action Database String (Unit {0})
  unfolding exec
  exec_pragmas [] = pure tt
  exec_pragmas (p ∷ rest) = do
    (λ db. closing_on_error (failing_with (append "pragma PRAGMA " p) (exec (pragma p) db)))
    exec_pragmas rest

  -- New
  unfoldable pub new_store : String → Action Database String (Unit {0})
  unfolding sql_open exec exec_pragmas
  new_store db_path = do
    (λ db. failing_with "open db" (sql_open db))
    modify (λ db. record db { one_connection = is_in_memory_dsn db_path })
    exec_pragmas pragmas
    (λ db. closing_on_error (failing_with "migrate" (exec schema db)))

-- What New leaves, in the terms of its parts.
pub data Opened (db_path : String) (s : Store) (out : Outcome String (Unit {0}) × Database)
    : Type 0 where
  ready :
      (n : ℕ)
      → out ≡ (
        ok tt,
        record {
          opened = true;
          closed = false;
          one_connection = is_in_memory_dsn db_path;
          executed = map pragma pragmas ++ schema ∷ [];
          store = at_call s n;
        },
      )
      → Opened db_path s out
  failed :
      (e : String) (db : Database) (n : ℕ)
      → out ≡ (err e, db)
      → db.closed ≡ db.opened
      → db.store ≡ at_call s n
      → Opened db_path s out

pub new_store_cases :
    (env : Env) (db_path : String) (s : Store)
    → Opened db_path s (new_store env db_path (unopened s))
unfolding new_store exec_pragmas exec sql_open
new_store_cases env db_path s = elim (call_cases env s) [
  | inr (e, n, out) ↦ rw (new_store, out) (Opened.failed _ _ n refl refl refl)
  | inl (_, n, _, out) ↦ elim (call_cases env (at_call s n)) [
    | inr (e, n1, out1) ↦ rw (new_store, out, out1) (Opened.failed _ _ n1 refl refl refl)
    | inl (_, n1, _, out1) ↦ elim (call_cases env (at_call s n1)) [
      | inr (e, n2, out2) ↦ rw (new_store, out, out1, out2) (Opened.failed _ _ n2 refl refl refl)
      | inl (_, n2, _, out2) ↦ elim (call_cases env (at_call s n2)) [
        | inr (e, n3, out3) ↦
            rw (new_store, out, out1, out2, out3) (Opened.failed _ _ n3 refl refl refl)
        | inl (_, n3, _, out3) ↦ elim (call_cases env (at_call s n3)) [
          | inr (e, n4, out4) ↦
              rw (new_store, out, out1, out2, out3, out4) (Opened.failed _ _ n4 refl refl refl)
          | inl (_, n4, _, out4) ↦
              rw (new_store, out, out1, out2, out3, out4) (Opened.ready n4 refl)
        ]
      ]
    ]
  ]
]

-- What New leaves, without the names of its parts.
pub data Opens (db_path : String) (s : Store) (out : Outcome String (Unit {0}) × Database)
    : Type 0 where
  ready :
      (n : ℕ) (db : Database)
      → out ≡ (ok tt, db)
      → db.opened ≡ true
      → db.closed ≡ false
      → (db.one_connection ≡ true) ↔ Stands ":memory:" db_path
      → db.executed
        ≡ pragma "journal_mode=WAL"
          ∷ pragma "synchronous=NORMAL"
          ∷ pragma "busy_timeout=5000"
          ∷ schema
          ∷ []
      → db.store ≡ at_call s n
      → Opens db_path s out
  failed :
      (e : String) (db : Database) (n : ℕ)
      → out ≡ (err e, db)
      → db.closed ≡ db.opened
      → db.store ≡ at_call s n
      → Opens db_path s out

is_in_memory_dsn_iff : (dsn : String) → (is_in_memory_dsn dsn ≡ true) ↔ Stands ":memory:" dsn
unfolding is_in_memory_dsn
is_in_memory_dsn_iff dsn = (to, λ found. rw (Stands-contains dsn ":memory:" found) (or_true _))
  where
    or_true : (b : Bool) → (b || true) ≡ true
    or_true true = refl
    or_true false = refl

    to : ((dsn == ":memory:") || contains dsn ":memory:") ≡ true → Stands ":memory:" dsn
    to h = elim (Bool-cases (dsn == ":memory:")) [
      | inl same ↦ record { before = ""; after = ""; whole = (eq_iff dsn ":memory:").0 same }
      | inr other ↦ contains-Stands dsn ":memory:" (ground (arith, h, other))
    ]

-- New, on a file that the process has not opened, has either set journal_mode=WAL,
-- synchronous=NORMAL and busy_timeout=5000 in this order and then run the schema, with one
-- connection exactly if `:memory:` is a part of the path; or it failed and has closed what it
-- opened. The tables are as before.
pub new_store_outcome :
    (env : Env) (db_path : String) (s : Store)
    → Opens db_path s (new_store env db_path (unopened s))
new_store_outcome env db_path s = elim (new_store_cases env db_path s) [
  | Opened.failed e db n out closed same ↦ Opens.failed e db n out closed same
  | Opened.ready n out ↦ Opens.ready n _ out refl refl (is_in_memory_dsn_iff db_path) refl refl
]
