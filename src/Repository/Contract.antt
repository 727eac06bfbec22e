-- ===== src/Repository/Contract.antt =====
-- What the handlers rely on of a store (internal/repository/metrics_repository.go and the comments
-- of internal/service/service.go): an abstract view of its content, and the effect of every
-- method on that view.
use rtmetrics.Base.{
  ℕ, String, ◌≡◌, refl, arith, Option, none, some, List, [], ◌∷◌, if◌then◌else◌, ◌==◌, or_else,
}
use rtmetrics.Base.Int64.{add64}
use rtmetrics.Base.GoMap.{GoMap, get}
use rtmetrics.Model.{Float64, Metrics, counter, gauge}
use rtmetrics.Repository.{Error, Result, ok, err, MetricsRepository}

pub record View : Type 0 where
  pub counters : String → Option ℕ
  pub gauges : String → Option Float64

-- A counter accumulates.
abbrev pub add_counter : String → ℕ → View → View
add_counter name delta v = record v {
  counters =
      λ k. if name == k then some (add64 (or_else (v.counters name) 0) delta) else v.counters k;
}

-- A gauge is replaced.
abbrev pub set_gauge : String → Float64 → View → View
set_gauge name value v = record v { gauges = λ k. if name == k then some value else v.gauges k }

-- A metric of a batch: what has no value, or another type, is passed over.
abbrev pub apply_delta : String → Option ℕ → View → View
apply_delta id none v = v
apply_delta id (some d) v = add_counter id d v

abbrev pub apply_value : String → Option Float64 → View → View
apply_value id none v = v
apply_value id (some x) v = set_gauge id x v

abbrev pub apply_metric : Metrics → View → View
apply_metric m v =
    if m.mtype == counter
    then apply_delta m.id m.delta v
    else if m.mtype == gauge
    then apply_value m.id m.value v
    else v

abbrev pub apply_batch : List Metrics → View → View
apply_batch [] v = v
apply_batch (m ∷ ms) v = apply_batch ms (apply_metric m v)

-- The two views hold the same metrics.
pub record SameView (a b : View) : Type 0 where
  pub counters : (k : String) → a.counters k ≡ b.counters k
  pub gauges : (k : String) → a.gauges k ≡ b.gauges k

pub SameView-refl : (v : View) → SameView v v
SameView-refl v = record { counters = λ k. refl; gauges = λ k. refl }

pub SameView-trans : {a b c : View} → SameView a b → SameView b c → SameView a c
SameView-trans p q = record {
  counters = λ k. cc (p.counters k, q.counters k);
  gauges = λ k. cc (p.gauges k, q.gauges k);
}

-- Equal views stay equal under a metric, and under a batch.
SameView-apply_metric :
    (m : Metrics) {a b : View} → SameView a b → SameView (apply_metric m a) (apply_metric m b)
SameView-apply_metric m {a} {b} h = record {
  counters = λ k. ground (arith, h.counters k, h.counters m.id);
  gauges = λ k. ground (arith, h.gauges k);
}

pub SameView-apply_batch :
    (ms : List Metrics) {a b : View} → SameView a b → SameView (apply_batch ms a) (apply_batch ms b)
SameView-apply_batch [] h = h
SameView-apply_batch (m ∷ ms) h = SameView-apply_batch ms (SameView-apply_metric m h)

-- A lookup returns what is there, and some error where nothing is.
abbrev pub Found : Option ℕ → Result ℕ → Type 0
Found (some v) r = r ≡ ok v
Found none r = (e : Error) × (r ≡ err e)

abbrev pub FoundGauge : Option Float64 → Result Float64 → Type 0
FoundGauge (some v) r = r ≡ ok v
FoundGauge none r = (e : Error) × (r ≡ err e)

abbrev pub AllCounters : View → Result (GoMap ℕ) → Type 0
AllCounters v r = (m : GoMap ℕ) × (r ≡ ok m) × ((k : String) → get m k ≡ v.counters k)

abbrev pub AllGauges : View → Result (GoMap Float64) → Type 0
AllGauges v r = (m : GoMap Float64) × (r ≡ ok m) × ((k : String) → get m k ≡ v.gauges k)

-- `repo` implements the view: every write succeeds and has its effect, and reads change nothing.
pub record Implements {S : Type 0} (repo : MetricsRepository S) (view : S → View) : Type 0 where
  pub counter_saved :
      (name : String) (delta : ℕ) (s : S)
      → ((repo.save_counter name delta s).0 ≡ ok (add64 (or_else ((view s).counters name) 0) delta))
        × SameView (view (repo.save_counter name delta s).1) (add_counter name delta (view s))
  pub gauge_saved :
      (name : String) (value : Float64) (s : S)
      → ((repo.save_gauge name value s).0 ≡ ok value)
        × SameView (view (repo.save_gauge name value s).1) (set_gauge name value (view s))
  pub batch_saved :
      (ms : List Metrics) (s : S)
      → ((repo.save_batch ms s).0 ≡ ok tt)
        × SameView (view (repo.save_batch ms s).1) (apply_batch ms (view s))
  pub counter_read :
      (name : String) (s : S)
      → Found ((view s).counters name) (repo.get_counter name s).0
        × SameView (view (repo.get_counter name s).1) (view s)
  pub gauge_read :
      (name : String) (s : S)
      → FoundGauge ((view s).gauges name) (repo.get_gauge name s).0
        × SameView (view (repo.get_gauge name s).1) (view s)
  pub all_counters_read :
      (s : S)
      → AllCounters (view s) (repo.get_all_counters s).0
        × SameView (view (repo.get_all_counters s).1) (view s)
  pub all_gauges_read :
      (s : S)
      → AllGauges (view s) (repo.get_all_gauges s).0
        × SameView (view (repo.get_all_gauges s).1) (view s)
