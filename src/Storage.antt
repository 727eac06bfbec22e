-- ===== src/Storage.antt =====
-- internal/storage/mem_storage.go: the in-memory store. A method holds the mutex from its start to
-- its end, so that it is one step on the state.
pub mod Refinement
pub mod History
pub mod File
pub mod Postgres
use rtmetrics.Base.{ℕ, String, Option, none, some, List, [], ◌∷◌, if◌then◌else◌, ◌==◌, or_else}
use rtmetrics.Base.Int64.{add64}
use rtmetrics.Base.GoMap.{GoMap, Iteration, empty, get, put, fill}
use rtmetrics.Model.{Float64, Metrics, counter, gauge}
use rtmetrics.Repository.{
  Error, Result, ok, err, wrap, counter_not_found, gauge_not_found, MetricsRepository,
}

pub record MemStorage : Type 0 where
  pub counters : GoMap ℕ
  pub gauges : GoMap Float64

abbrev pub new : MemStorage
new = record { counters = empty; gauges = empty }

-- s.Counters[name] += value; a missing key reads as 0
abbrev pub add_to : GoMap ℕ → String → ℕ → GoMap ℕ
add_to m name value = put m name (add64 (or_else (get m name) 0) value)

unfoldable pub save_counter : String → ℕ → MemStorage → Result ℕ × MemStorage
save_counter name value s =
    let counters = add_to s.counters name value in
    (ok (or_else (get counters name) 0), record s { counters = counters })

unfoldable pub save_gauge : String → Float64 → MemStorage → Result Float64 × MemStorage
save_gauge name value s = (ok value, record s { gauges = put s.gauges name value })

-- One round of the loop of SaveBatch.
unfoldable pub save_metric : Metrics → MemStorage → MemStorage
save_metric m s =
    if m.mtype == counter
    then elim m.delta [
      | none ↦ s
      | some delta ↦ record s { counters = add_to s.counters m.id delta }
    ]
    else if m.mtype == gauge
    then elim m.value [ none ↦ s | some value ↦ record s { gauges = put s.gauges m.id value } ]
    else s

unfoldable pub save_metrics : List Metrics → MemStorage → MemStorage
save_metrics [] s = s
save_metrics (m ∷ ms) s = save_metrics ms (save_metric m s)

unfoldable pub save_batch : List Metrics → MemStorage → Result (Unit {0}) × MemStorage
save_batch ms s = (ok tt, save_metrics ms s)

-- `if e { return v, nil }; return 0, err`
abbrev pub or_missing {ℓ} : {V : Type ℓ} → Option V → Error → Result V
or_missing (some v) e = ok v
or_missing none e = err e

unfoldable pub get_counter : String → MemStorage → Result ℕ × MemStorage
get_counter name s = (or_missing (get s.counters name) (wrap name counter_not_found), s)

unfoldable pub get_gauge : String → MemStorage → Result Float64 × MemStorage
get_gauge name s = (or_missing (get s.gauges name) (wrap name gauge_not_found), s)

-- `if m != nil { s.M = make(…); for k, v := range m { s.M[k] = v } }`
abbrev pub replaced {ℓ} : {V : Type ℓ} → Iteration V → Option (GoMap V) → GoMap V → GoMap V
replaced loop none old = old
replaced loop (some m) old = fill (loop.order m) empty

module _ (ints : Iteration ℕ) (floats : Iteration Float64) where
  unfoldable pub get_all_counters : MemStorage → Result (GoMap ℕ) × MemStorage
  get_all_counters s = (ok (fill (ints.order s.counters) empty), s)

  unfoldable pub get_all_gauges : MemStorage → Result (GoMap Float64) × MemStorage
  get_all_gauges s = (ok (fill (floats.order s.gauges) empty), s)

  -- Restore; a nil map is `none`.
  unfoldable pub restore : Option (GoMap ℕ) → Option (GoMap Float64) → MemStorage → MemStorage
  restore counters gauges s = record {
    counters = replaced ints counters s.counters;
    gauges = replaced floats gauges s.gauges;
  }

  -- *MemStorage as a repository.
  abbrev pub mem_repository : MetricsRepository MemStorage
  mem_repository = record {
    save_counter = save_counter;
    save_gauge = save_gauge;
    get_counter = get_counter;
    get_gauge = get_gauge;
    get_all_counters = get_all_counters;
    get_all_gauges = get_all_gauges;
    save_batch = save_batch;
  }
