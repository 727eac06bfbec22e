-- ===== src/Storage/Postgres.antt =====
-- internal/storage/postgres/postgres.go: the store in a table of PostgreSQL. `fmt.Errorf` keeps the
-- text of its message without the name of the metric.
pub mod Driver
pub mod Behaviour
pub mod Retried
pub mod Transaction
pub mod Scanned
pub mod Refinement
pub mod LostReplies
pub mod Equivalence
pub mod Listing
use rtmetrics.Base.{
  ℕ, String, Bool, true, false, ◌≡◌, refl, Option, none, some, List, [], ◌∷◌, if◌then◌else◌, ◌==◌,
}
use rtmetrics.Base.GoMap.{GoMap, empty, put}
use rtmetrics.Model.{Float64, Metrics, counter, gauge}
use rtmetrics.Repository.{
  Error, Result, ok, err, wrap, no_rows, deadline_exceeded, net_error, pg_error, MetricsRepository,
}
use rtmetrics.Retry.{do_retry}
use rtmetrics.Storage.Postgres.Driver.{
  Statement, upsert, select_one, select_all, delta_column, value_column, accumulate, replace, Arg,
  text, bigint, double, Row, Rows, SqlDb, and_then, ◌>>=◌, ◌>>◌, wrapped, deferred,
}

-- isRetriable: a PgError by its code, else whether the chain has a net.Error, which
-- context.DeadlineExceeded is as well. The codes are those of pgerrcode.IsConnectionException.
unfoldable pub is_retriable : (String → Bool) → Error → Bool
is_retriable is_connection_exception (pg_error code) = is_connection_exception code
is_retriable is_connection_exception net_error = true
is_retriable is_connection_exception deadline_exceeded = true
is_retriable is_connection_exception (wrap msg e) = is_retriable is_connection_exception e
is_retriable is_connection_exception e = false

-- errors.Is(err, sql.ErrNoRows)
unfoldable pub is_no_rows : Error → Bool
is_no_rows no_rows = true
is_no_rows (wrap msg e) = is_no_rows e
is_no_rows e = false

module _ {D : Type 0} where
  -- `return ….Scan(&result)` in the function that is retried: the state has the variable result.
  abbrev pub assigned : {A : Type 0} → A → Result A × D → Option Error × (A × D)
  assigned old (ok a, d) = (none, (a, d))
  assigned old (err e, d) = (some e, (old, d))

  abbrev pub scanning : {A : Type 0} → (D → Result A × D) → A × D → Option Error × (A × D)
  scanning call (old, d) = assigned old (call d)

  -- `if err != nil { return zero, fmt.Errorf(msg, err) }; return result, nil`
  abbrev pub returned : {A : Type 0} → String → Option Error × (A × D) → Result A × D
  returned msg (none, (a, d)) = (ok a, d)
  returned msg (some e, (a, d)) = (err (wrap msg e), d)

  -- The same after the test for sql.ErrNoRows.
  abbrev pub found_or : {A : Type 0} → String → String → Option Error × (A × D) → Result A × D
  found_or missing msg (none, (a, d)) = (ok a, d)
  found_or missing msg (some e, (a, d)) =
      (err (if is_no_rows e then wrap missing e else wrap msg e), d)

  -- An error as what a retried function returns, and back.
  abbrev pub failure : Result (Unit {0}) × D → Option Error × D
  failure (ok u, d) = (none, d)
  failure (err e, d) = (some e, d)

  abbrev pub outcome : Option Error × D → Result (Unit {0}) × D
  outcome (none, d) = (ok tt, d)
  outcome (some e, d) = (err e, d)

-- `if err := rows.Err(); err != nil { return err }; result = m`
abbrev pub or_rows_error : {A : Type 0} → Option Error → GoMap A → Result (GoMap A)
or_rows_error none m = ok m
or_rows_error (some e) m = err e

-- The loop over rows.Next.
unfoldable pub collect_rows :
    {A : Type 0} → List (Row A) → Option Error → GoMap A → Result (GoMap A)
collect_rows [] error m = or_rows_error error m
collect_rows (r ∷ rs) error m =
    let others = collect_rows rs error (put m r.id r.value) in
    elim r.scan_error [ none ↦ others | some e ↦ err e ]

abbrev pub collected : {A D : Type 0} → Rows A → D → Result (GoMap A) × D
collected r d = (collect_rows r.rows r.error empty, d)

module _ {D : Type 0} (db : SqlDb D) where
  -- `if m.Delta == nil { continue }`, else ExecContext
  abbrev pub exec_delta : String → Option ℕ → D → Result (Unit {0}) × D
  exec_delta id none d = (ok tt, d)
  exec_delta id (some delta) d = wrapped "save counter in batch" (
      db.exec (upsert delta_column accumulate false) (text id ∷ text counter ∷ bigint delta ∷ []) d)

  -- `if m.Value == nil { continue }`, else ExecContext
  abbrev pub exec_value : String → Option Float64 → D → Result (Unit {0}) × D
  exec_value id none d = (ok tt, d)
  exec_value id (some value) d =
      wrapped "save gauge in batch"
        (db.exec (upsert value_column replace false) (text id ∷ text gauge ∷ double value ∷ []) d)

  -- A round of the loop of saveBatch.
  unfoldable pub exec_metric : Metrics → D → Result (Unit {0}) × D
  exec_metric m d =
      if m.mtype == counter
      then exec_delta m.id m.delta d
      else if m.mtype == gauge
      then exec_value m.id m.value d
      else (ok tt, d)

  unfoldable pub exec_metrics : List Metrics → D → Result (Unit {0}) × D
  exec_metrics [] d = (ok tt, d)
  exec_metrics (m ∷ ms) d = and_then (exec_metric m d) (λ _. exec_metrics ms)

  -- saveBatch after BeginTx.
  unfoldable pub in_transaction : List Metrics → D → Result (Unit {0}) × D
  in_transaction ms = do
    λ d. wrapped "prepare counter stmt" (db.prepare (upsert delta_column accumulate false) d)
    λ d. wrapped "prepare gauge stmt" (db.prepare (upsert value_column replace false) d)
    exec_metrics ms
    λ d. wrapped "commit tx" (db.commit d)

  -- saveBatch
  unfoldable pub save_batch_once : List Metrics → D → Result (Unit {0}) × D
  save_batch_once ms = do
    λ d. wrapped "begin tx" (db.begin_tx d)
    λ d. deferred db.rollback (in_transaction ms d)

  -- The functions that GetAllCounters and GetAllGauges hand to retry.Do.
  abbrev pub list_counters : D → Result (GoMap ℕ) × D
  list_counters d =
      and_then (db.query_bigints (select_all delta_column) (text counter ∷ []) d) collected

  abbrev pub list_gauges : D → Result (GoMap Float64) × D
  list_gauges d =
      and_then (db.query_doubles (select_all value_column) (text gauge ∷ []) d) collected

  module _ (is_connection_exception : String → Bool) (ctx_err : Option Error)
      (cancelled : ℕ → Bool) where
    abbrev pub retried : {S : Type 0} → (S → Option Error × S) → S → Option Error × S
    retried fn s = do_retry (is_retriable is_connection_exception) fn ctx_err cancelled s

    unfoldable pub save_counter : String → ℕ → D → Result ℕ × D
    save_counter name value d = returned "save counter" (
        retried
          (scanning (
            db.query_bigint (upsert delta_column accumulate true)
              (text name ∷ text counter ∷ bigint value ∷ [])))
          (0, d))

    unfoldable pub save_gauge : String → Float64 → D → Result Float64 × D
    save_gauge name value d = returned "save gauge" (
        retried
          (scanning (
            db.query_double (upsert value_column replace true)
              (text name ∷ text gauge ∷ double value ∷ [])))
          (record { bits = 0 }, d))

    unfoldable pub save_batch : List Metrics → D → Result (Unit {0}) × D
    save_batch batch d = outcome (retried (λ t. failure (save_batch_once batch t)) d)

    unfoldable pub get_counter : String → D → Result ℕ × D
    get_counter name d = found_or "counter not found" "get counter" (
        retried
          (scanning (db.query_bigint (select_one delta_column) (text name ∷ text counter ∷ [])))
          (0, d))

    unfoldable pub get_gauge : String → D → Result Float64 × D
    get_gauge name d = found_or "gauge not found" "get gauge" (
        retried (scanning (db.query_double (select_one value_column) (text name ∷ text gauge ∷ [])))
          (record { bits = 0 }, d))

    unfoldable pub get_all_counters : D → Result (GoMap ℕ) × D
    get_all_counters d = returned "get all counters" (retried (scanning list_counters) (empty, d))

    unfoldable pub get_all_gauges : D → Result (GoMap Float64) × D
    get_all_gauges d = returned "get all gauges" (retried (scanning list_gauges) (empty, d))

    -- *Storage as a repository.
    abbrev pub postgres_repository : MetricsRepository D
    postgres_repository = record {
      save_counter = save_counter;
      save_gauge = save_gauge;
      get_counter = get_counter;
      get_gauge = get_gauge;
      get_all_counters = get_all_counters;
      get_all_gauges = get_all_gauges;
      save_batch = save_batch;
    }

-- fs.Sub, goose.NewProvider and provider.Up, with the error of each.
pub record Migrations (D : Type 0) : Type 0 where
  pub sub : Option Error
  pub provider : Option Error
  pub up : D → Option Error × D

module _ {D : Type 0} (migrations : Migrations D) where
  abbrev wrapped_error : String → Option Error × D → Option Error × D
  wrapped_error msg (none, d) = (none, d)
  wrapped_error msg (some e, d) = (some (wrap msg e), d)

  abbrev pub migrate_with : Option Error → Option Error → D → Option Error × D
  migrate_with (some e) provider d = (some (wrap "open migrations dir" e), d)
  migrate_with none (some e) d = (some (wrap "create goose provider" e), d)
  migrate_with none none d = wrapped_error "apply up migrations" (migrations.up d)

  unfoldable pub migrate : D → Option Error × D
  migrate d = migrate_with migrations.sub migrations.provider d

  -- New: the store over `d`, or the error with what the migrations left.
  unfoldable pub new : D → Option Error × D
  unfolding migrate
  new d = wrapped_error "apply migrations" (migrate d)
