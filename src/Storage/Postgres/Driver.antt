-- ===== src/Storage/Postgres/Driver.antt =====
-- What internal/storage/postgres/postgres.go uses of database/sql with pgx and a PostgreSQL server:
-- the statements, and the calls on a state that holds the connections and the tables. A database
-- is a parameter of the model; its documented behaviour is in Postgres/Behaviour.
use rtmetrics.Base.{ℕ, String, Bool, Option, List}
use rtmetrics.Model.{Float64}
use rtmetrics.Repository.{Error, Result, ok, err, wrap}

-- The columns of the table metrics, whose key is (id, mtype).
pub data Column : Type 0 where
  delta_column value_column : Column

-- ON CONFLICT (id, mtype) DO UPDATE SET c = metrics.c + EXCLUDED.c, or SET c = EXCLUDED.c
pub data Update : Type 0 where
  accumulate replace : Update

-- INSERT INTO metrics (id, mtype, c) VALUES ($1, $2, $3) ON CONFLICT …, with RETURNING c or
-- without; SELECT c FROM metrics WHERE id = $1 AND mtype = $2; SELECT id, c FROM metrics WHERE
-- mtype = $1.
pub data Statement : Type 0 where
  upsert : Column → Update → Bool → Statement
  select_one : Column → Statement
  select_all : Column → Statement

pub data Arg : Type 0 where
  text : String → Arg
  bigint : ℕ → Arg
  double : Float64 → Arg

-- A row of `SELECT id, c`, and the error of its Scan.
pub record Row (A : Type 0) : Type 0 where
  pub id : String
  pub value : A
  pub scan_error : Option Error

-- *sql.Rows: what Next meets, and Err after it.
pub record Rows (A : Type 0) : Type 0 where
  pub rows : List (Row A)
  pub error : Option Error

-- QueryRowContext(…).Scan(&v), QueryContext, BeginTx, PrepareContext and ExecContext in the
-- transaction, Commit and Rollback. The deferred Close of statements and rows leaves the tables
-- as they are and is not a call here.
pub record SqlDb (D : Type 0) : Type 0 where
  pub query_bigint : Statement → List Arg → D → Result ℕ × D
  pub query_double : Statement → List Arg → D → Result Float64 × D
  pub query_bigints : Statement → List Arg → D → Result (Rows ℕ) × D
  pub query_doubles : Statement → List Arg → D → Result (Rows Float64) × D
  pub begin_tx : D → Result (Unit {0}) × D
  pub prepare : Statement → D → Result (Unit {0}) × D
  pub exec : Statement → List Arg → D → Result (Unit {0}) × D
  pub commit : D → Result (Unit {0}) × D
  pub rollback : D → D

module _ {D : Type 0} where
  -- `a, err := m(); if err != nil { return err }; …`
  abbrev pub and_then : {A B : Type 0} → Result A × D → (A → D → Result B × D) → Result B × D
  and_then (ok a, d) f = f a d
  and_then (err e, d) f = (err e, d)

  abbrev pub ◌>>=◌ : {A B : Type 0} → (D → Result A × D) → (A → D → Result B × D) → D → Result B × D
  ◌>>=◌ m f d = and_then (m d) f

  abbrev pub ◌>>◌ : {A B : Type 0} → (D → Result A × D) → (D → Result B × D) → D → Result B × D
  ◌>>◌ m k d = and_then (m d) (λ _. k)

  -- fmt.Errorf(msg, err)
  abbrev pub wrapped : {A : Type 0} → String → Result A × D → Result A × D
  wrapped msg (ok a, d) = (ok a, d)
  wrapped msg (err e, d) = (err (wrap msg e), d)

  -- `defer f()`
  abbrev pub deferred : {A : Type 0} → (D → D) → Result A × D → Result A × D
  deferred f (r, d) = (r, f d)
