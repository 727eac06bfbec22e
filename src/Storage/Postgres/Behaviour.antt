-- ===== src/Storage/Postgres/Behaviour.antt =====
-- What PostgreSQL and database/sql document of the calls that internal/storage/postgres/postgres.go
-- makes: `view` is what the committed rows of the table metrics say, and `pending` what they would
-- say after the open transaction. Other clients do not write between the calls.
use rtmetrics.Base.{
  ℕ, String, Bool, true, false, ◌≡◌, ◌⊎◌, Option, none, some, List, [], ◌∷◌, or_else,
}
use rtmetrics.Base.Int64.{add64}
use rtmetrics.Base.GoMap.{lookup, Distinct}
use rtmetrics.Model.{Float64}
use rtmetrics.Repository.{Error, Result, ok, err}
use rtmetrics.Repository.Contract.{View, SameView, add_counter, set_gauge}
use rtmetrics.Repository.Fallible.{Written}
use rtmetrics.Storage.Postgres.{is_no_rows}
use rtmetrics.Storage.Postgres.Driver.{
  Statement, upsert, select_one, select_all, delta_column, value_column, accumulate, replace, text,
  bigint, double, Row, Rows, SqlDb,
}

-- A call that returns leaves `target`, one that fails may leave anything.
abbrev pub Returned : {A : Type 0} → View → View → Result A → Type 0
Returned after target (ok a) = SameView after target
Returned after target (err e) = Unit

-- A row is read where there is one, and sql.ErrNoRows means that there is none.
abbrev pub Selected : {A : Type 0} → Option A → Result A → Type 0
Selected row (ok a) = row ≡ some a
Selected row (err e) = (row ≡ none) ⊎ (is_no_rows e ≡ false)

abbrev pub entries : {A : Type 0} → List (Row A) → List (String × A)
entries [] = []
entries (r ∷ rs) = (r.id, r.value) ∷ entries rs

-- Where Next has met every row, these are the rows of the table, each key once.
abbrev pub AllRows : {A : Type 0} → (String → Option A) → List (Row A) → Option Error → Type 0
AllRows table rows none =
    Distinct (entries rows) × ((k : String) → lookup k (entries rows) ≡ table k)
AllRows table rows (some e) = Unit

abbrev pub Listed : {A : Type 0} → (String → Option A) → Result (Rows A) → Type 0
Listed table (ok r) = AllRows table r.rows r.error
Listed table (err e) = Unit

-- `lossy` says whether the reply to a write can be lost after its effect.
pub record Behaves {D : Type 0} (lossy : Bool) (db : SqlDb D) (view pending : D → View)
    : Type 0 where
  pub counter_upserted :
      (name : String) (delta : ℕ) (d : D)
      → let p =
          db.query_bigint
            (upsert delta_column accumulate true)
            (text name ∷ text "counter" ∷ bigint delta ∷ [])
            d in
        Written lossy
          (add64 (or_else ((view d).counters name) 0) delta)
          (view d)
          (view p.1)
          (add_counter name delta (view d))
          p.0
  pub gauge_upserted :
      (name : String) (value : Float64) (d : D)
      → let p =
          db.query_double
            (upsert value_column replace true)
            (text name ∷ text "gauge" ∷ double value ∷ [])
            d in
        Written lossy value (view d) (view p.1) (set_gauge name value (view d)) p.0
  pub counter_selected :
      (name : String) (d : D)
      → let p = db.query_bigint (select_one delta_column) (text name ∷ text "counter" ∷ []) d in
        Selected ((view d).counters name) p.0 × SameView (view p.1) (view d)
  pub gauge_selected :
      (name : String) (d : D)
      → let p = db.query_double (select_one value_column) (text name ∷ text "gauge" ∷ []) d in
        Selected ((view d).gauges name) p.0 × SameView (view p.1) (view d)
  pub counters_listed :
      (d : D)
      → let p = db.query_bigints (select_all delta_column) (text "counter" ∷ []) d in
        Listed (view d).counters p.0 × SameView (view p.1) (view d)
  pub gauges_listed :
      (d : D)
      → let p = db.query_doubles (select_all value_column) (text "gauge" ∷ []) d in
        Listed (view d).gauges p.0 × SameView (view p.1) (view d)
  pub begun :
      (d : D)
      → SameView (view (db.begin_tx d).1) (view d)
        × Returned (pending (db.begin_tx d).1) (view d) (db.begin_tx d).0
  pub prepared :
      (stmt : Statement) (d : D)
      → SameView (view (db.prepare stmt d).1) (view d)
        × SameView (pending (db.prepare stmt d).1) (pending d)
  pub counter_executed :
      (name : String) (delta : ℕ) (d : D)
      → let p =
          db.exec
            (upsert delta_column accumulate false)
            (text name ∷ text "counter" ∷ bigint delta ∷ [])
            d in
        SameView (view p.1) (view d)
        × Returned (pending p.1) (add_counter name delta (pending d)) p.0
  pub gauge_executed :
      (name : String) (value : Float64) (d : D)
      → let p =
          db.exec
            (upsert value_column replace false)
            (text name ∷ text "gauge" ∷ double value ∷ [])
            d in
        SameView (view p.1) (view d) × Returned (pending p.1) (set_gauge name value (pending d)) p.0
  pub committed :
      (d : D) → Written lossy tt (view d) (view (db.commit d).1) (pending d) (db.commit d).0
  pub rolled_back : (d : D) → SameView (view (db.rollback d)) (view d)
