-- ===== src/Repository.antt =====
-- internal/repository/metrics_repository.go: the contract of a metrics store. A method takes the
-- state of the store and returns its result with the new state.
pub mod Contract
pub mod Fallible
use rtmetrics.Base.{ℕ, String, List, Bool, true, false}
use rtmetrics.Base.GoMap.{GoMap}
use rtmetrics.Model.{Float64, Metrics}

-- The errors that the stores return: the two sentinels of the package storage, those of the SQL
-- driver and of the context, and `fmt.Errorf("…: %w", err)`.
pub data Error : Type 0 where
  counter_not_found gauge_not_found no_rows canceled deadline_exceeded net_error : Error
  pg_error : String → Error
  other : String → Error
  wrap : String → Error → Error

-- A Go result `(value, err)`: the value counts where err is nil.
pub data Result {ℓ} (A : Type ℓ) : Type ℓ where
  ok : A → Result A
  err : Error → Result A

-- err == nil
abbrev pub is_ok {ℓ} : {A : Type ℓ} → Result A → Bool
is_ok (ok a) = true
is_ok (err e) = false

pub record MetricsRepository (S : Type 0) : Type 0 where
  pub save_counter : String → ℕ → S → Result ℕ × S
  pub save_gauge : String → Float64 → S → Result Float64 × S
  pub get_counter : String → S → Result ℕ × S
  pub get_gauge : String → S → Result Float64 × S
  pub get_all_counters : S → Result (GoMap ℕ) × S
  pub get_all_gauges : S → Result (GoMap Float64) × S
  pub save_batch : List Metrics → S → Result (Unit {0}) × S
