-- ===== src/Examples/Database.antt =====
-- The theorems on internal/storage/postgres at a concrete database, which refuses writes and loses
-- replies as a list says.
use rtmetrics.Base.{
  ℕ, String, ◌≡◌, refl, Bool, true, false, inl, inr, Option, none, some, List, [], ◌∷◌, or_else,
  ◌==◌,
}
use rtmetrics.Base.Int64.{add64}
use rtmetrics.Base.GoMap.{GoMap, empty, get, put, range, range-IsRange, lookup, get-put}
use rtmetrics.Model.{Float64, new_counter, new_gauge}
use rtmetrics.Repository.{Result, ok, err, net_error, no_rows, other}
use rtmetrics.Repository.Contract.{View, SameView, SameView-refl}
use rtmetrics.Repository.Fallible.{Written, ImplementsOrFails}
use rtmetrics.Storage.{new}
use rtmetrics.Storage.Refinement.{view}
use rtmetrics.Storage.Postgres.Driver.{
  delta_column, value_column, Statement, upsert, select_one, select_all, accumulate, replace, Arg,
  text, bigint, double, Row, Rows, SqlDb,
}
use rtmetrics.Storage.Postgres.Behaviour.{Behaves, Selected, Listed, entries}
use rtmetrics.Retry.{do_retry, retry_loop}
use rtmetrics.Storage.History.{Op, counter_op, gauge_op, batch_op, run}
use rtmetrics.Storage.Postgres.{
  postgres_repository, save_counter, save_gauge, save_batch, save_batch_once, in_transaction,
  exec_metrics, exec_metric, is_retriable,
}
use rtmetrics.Storage.Postgres.Retried.{Repeated}
use rtmetrics.Storage.Postgres.Refinement.{postgres_repository-ImplementsOrFails}
use rtmetrics.Storage.Postgres.Equivalence.{run_on, acknowledged, run_on-run_postgres}
use rtmetrics.Storage.Postgres.LostReplies.{error_of, save_batch-Repeated}
use rtmetrics.Examples.Toolkit.{two_metrics}

pub data Fault : Type 0 where
  fine refused lost : Fault

pub record Store : Type 0 where
  counters : GoMap ℕ
  gauges : GoMap Float64
  open_counters : GoMap ℕ
  open_gauges : GoMap Float64
  faults : List Fault

abbrev pub seen : Store → View
seen s = record { counters = λ k. get s.counters k; gauges = λ k. get s.gauges k }

abbrev pub opened : Store → View
opened s = record { counters = λ k. get s.open_counters k; gauges = λ k. get s.open_gauges k }

abbrev next_fault : List Fault → Fault
next_fault [] = fine
next_fault (f ∷ fs) = f

abbrev later_faults : List Fault → List Fault
later_faults [] = []
later_faults (f ∷ fs) = fs

abbrev after_fault : Store → Store
after_fault s = record s { faults = later_faults s.faults }

-- The answer to a write of `after`.
abbrev answer : {A : Type 0} → Bool → Fault → A → Store → Store → Result A × Store
answer lossy fine x before after = (ok x, after)
answer lossy refused x before after = (err net_error, before)
answer false lost x before after = (err net_error, before)
answer true lost x before after = (err net_error, after)

abbrev or_no_rows : {A : Type 0} → Option A → Result A
or_no_rows none = err no_rows
or_no_rows (some a) = ok a

abbrev rows_of : {A : Type 0} → List (String × A) → List (Row A)
rows_of [] = []
rows_of ((k, v) ∷ l) = record { id = k; value = v; scan_error = none } ∷ rows_of l

abbrev added : GoMap ℕ → String → ℕ → ℕ
added m name delta = add64 (or_else (get m name) 0) delta

abbrev query_bigint : Bool → Statement → List Arg → Store → Result ℕ × Store
query_bigint lossy (upsert delta_column accumulate true) (text name ∷ text t ∷ bigint delta ∷ [])
      s =
    let x = added s.counters name delta in
    answer lossy (next_fault s.faults) x (after_fault s)
      (record (after_fault s) { counters = put s.counters name x })
query_bigint lossy (select_one delta_column) (text name ∷ text t ∷ []) s =
    (or_no_rows (get s.counters name), s)
query_bigint lossy stmt args s = (err (other "syntax"), s)

abbrev query_double : Bool → Statement → List Arg → Store → Result Float64 × Store
query_double lossy (upsert value_column replace true) (text name ∷ text t ∷ double value ∷ []) s =
    answer lossy (next_fault s.faults) value (after_fault s)
      (record (after_fault s) { gauges = put s.gauges name value })
query_double lossy (select_one value_column) (text name ∷ text t ∷ []) s =
    (or_no_rows (get s.gauges name), s)
query_double lossy stmt args s = (err (other "syntax"), s)

abbrev query_bigints : Statement → List Arg → Store → Result (Rows ℕ) × Store
query_bigints (select_all delta_column) args s =
    (ok (record { rows = rows_of (range s.counters); error = none }), s)
query_bigints stmt args s = (err (other "syntax"), s)

abbrev query_doubles : Statement → List Arg → Store → Result (Rows Float64) × Store
query_doubles (select_all value_column) args s =
    (ok (record { rows = rows_of (range s.gauges); error = none }), s)
query_doubles stmt args s = (err (other "syntax"), s)

abbrev exec : Statement → List Arg → Store → Result (Unit {0}) × Store
exec (upsert delta_column accumulate r) (text name ∷ text t ∷ bigint delta ∷ []) s = (
  ok tt,
  record s { open_counters = put s.open_counters name (added s.open_counters name delta) },
)
exec (upsert value_column replace r) (text name ∷ text t ∷ double value ∷ []) s =
    (ok tt, record s { open_gauges = put s.open_gauges name value })
exec stmt args s = (err (other "syntax"), s)

abbrev begin_tx : Store → Result (Unit {0}) × Store
begin_tx s = (ok tt, record s { open_counters = s.counters; open_gauges = s.gauges })

abbrev commit : Bool → Store → Result (Unit {0}) × Store
commit lossy s =
    answer lossy (next_fault s.faults) tt (after_fault s)
      (record (after_fault s) { counters = s.open_counters; gauges = s.open_gauges })

abbrev pub toy_db : Bool → SqlDb Store
toy_db lossy = record {
  query_bigint = query_bigint lossy;
  query_double = query_double lossy;
  query_bigints = query_bigints;
  query_doubles = query_doubles;
  begin_tx = begin_tx;
  prepare = λ stmt s. (ok tt, s);
  exec = exec;
  commit = commit lossy;
  rollback = λ s. s;
}

answer-Written :
    {A : Type 0} (lossy : Bool) (f : Fault) (x : A) (s t : Store) (target : View)
    → SameView (seen t) target
    → Written lossy x (seen s) (seen (answer lossy f x s t).1) target (answer lossy f x s t).0
answer-Written lossy fine x s t target h = (refl, h)
answer-Written false refused x s t target h = SameView-refl (seen s)
answer-Written true refused x s t target h = inl (SameView-refl (seen s))
answer-Written false lost x s t target h = SameView-refl (seen s)
answer-Written true lost x s t target h = inr h

or_no_rows-Selected : {A : Type 0} (o : Option A) → Selected o (or_no_rows o)
or_no_rows-Selected none = inl refl
or_no_rows-Selected (some a) = refl

entries-rows_of : {A : Type 0} (l : List (String × A)) → entries (rows_of l) ≡ l
entries-rows_of [] = refl
entries-rows_of ((k, v) ∷ l) = rw (entries-rows_of l) refl

range-Listed :
    {A : Type 0} (m : GoMap A)
    → Listed (λ k. get m k) (ok (record { rows = rows_of (range m); error = none }))
range-Listed m = rw (entries-rows_of (range m)) ((range-IsRange m).once, (range-IsRange m).same)

pub toy_db-Behaves : (lossy : Bool) → Behaves lossy (toy_db lossy) seen opened
toy_db-Behaves lossy = record {
  counter_upserted = λ name delta s.
      answer-Written lossy (next_fault s.faults) _ (after_fault s) _ _
        (record { counters = λ k. get-put s.counters name k _; gauges = λ k. refl });
  gauge_upserted = λ name value s.
      answer-Written lossy (next_fault s.faults) _ (after_fault s) _ _
        (record { counters = λ k. refl; gauges = λ k. get-put s.gauges name k _ });
  counter_selected = λ name s. (or_no_rows-Selected _, SameView-refl (seen s));
  gauge_selected = λ name s. (or_no_rows-Selected _, SameView-refl (seen s));
  counters_listed = λ s. (range-Listed s.counters, SameView-refl (seen s));
  gauges_listed = λ s. (range-Listed s.gauges, SameView-refl (seen s));
  begun = λ s. (SameView-refl (seen s), SameView-refl (seen s));
  prepared = λ stmt s. (SameView-refl (seen s), SameView-refl (opened s));
  counter_executed = λ name delta s. (
    SameView-refl (seen s),
    record { counters = λ k. get-put s.open_counters name k _; gauges = λ k. refl },
  );
  gauge_executed = λ name value s. (
    SameView-refl (seen s),
    record { counters = λ k. refl; gauges = λ k. get-put s.open_gauges name k _ },
  );
  committed = λ s.
      answer-Written lossy (next_fault s.faults) tt (after_fault s) _ _ (SameView-refl (opened s));
  rolled_back = λ s. SameView-refl (seen s);
}

-- The class of codes "08…" has one member here.
abbrev pub connection_exception : String → Bool
connection_exception code = code == "08006"

abbrev store_with : List Fault → Store
store_with faults = record {
  counters = empty;
  gauges = empty;
  open_counters = empty;
  open_gauges = empty;
  faults = faults;
}

postgres_repository-ImplementsOrFails_example :
    ImplementsOrFails
      (postgres_repository (toy_db false) connection_exception none (λ t. false))
      seen
postgres_repository-ImplementsOrFails_example =
    postgres_repository-ImplementsOrFails (toy_db false) seen opened (toy_db-Behaves false)
      connection_exception none (λ t. false)

-- The first call fails four times and is given up, the others succeed.
abbrev down : Store
down = store_with (refused ∷ refused ∷ refused ∷ refused ∷ refused ∷ [])

abbrev some_ops : List Op
some_ops = counter_op "hits" 3 ∷ gauge_op "temp" (record { bits = 1 }) ∷ batch_op two_metrics ∷ []

run_on-run_postgres_example :
    let repo = postgres_repository (toy_db false) connection_exception none (λ t. false) in
    SameView (seen (run_on repo some_ops down)) (view (run (acknowledged repo some_ops down) new))
unfolding empty
run_on-run_postgres_example =
    run_on-run_postgres (toy_db false) seen opened (toy_db-Behaves false) connection_exception none
      (λ t. false) some_ops down new (SameView-refl (view new))

acknowledged_test :
    let repo = postgres_repository (toy_db false) connection_exception none (λ t. false) in
    acknowledged repo some_ops down
    ≡ gauge_op "temp" (record { bits = 1 }) ∷ batch_op two_metrics ∷ []
unfolding save_counter save_gauge save_batch save_batch_once in_transaction exec_metrics exec_metric
    do_retry retry_loop is_retriable new_counter new_gauge
acknowledged_test = refl

-- The replies to the first two attempts are lost.
abbrev losing : Store
losing = store_with (lost ∷ lost ∷ [])

-- One call of SaveCounter has then added 5 three times.
tripled_test :
    (save_counter (toy_db true) connection_exception none (λ t. false) "hits" 5 losing).0 ≡ ok 15
unfolding save_counter do_retry retry_loop is_retriable empty get put lookup add64
tripled_test = refl

save_batch-Repeated_example :
    let p = save_batch (toy_db true) connection_exception none (λ t. false) two_metrics losing in
    Repeated 4 two_metrics (seen losing) (seen p.1) (error_of p.0)
save_batch-Repeated_example =
    save_batch-Repeated (toy_db true) seen opened (toy_db-Behaves true) connection_exception none
      (λ t. false) two_metrics losing
