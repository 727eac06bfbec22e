-- ===== src/Storage/History.antt =====
-- The in-memory store (internal/storage/mem_storage.go) against the history of its writes. Methods
-- hold the mutex, so concurrent callers see one sequence of operations.
use mathlib.Core.Logic.{∥∥₁_elim}
use mathlib.Core.Path.{ap₂}
use mathlib.Core.List.{Perm, Permᴰ}
use rtmetrics.Base.{
  ℕ, String, ◌≡◌, refl, ap, ◌∙◌, sym, Option, none, some, List, [], ◌∷◌, ◌+◌, ◌%◌, arith, ◌==◌,
  eq_iff, or_else, if◌then◌else◌,
}
use rtmetrics.Base.Int64.{add64, two64}
use rtmetrics.Base.GoMap.{get, first_some, get-put, get-empty}
use rtmetrics.Model.{Float64, Metrics, counter, gauge}
use rtmetrics.Storage.{
  MemStorage, new, save_counter, save_gauge, save_metric, save_metrics, save_batch,
}

-- A call of a method that writes.
pub data Op : Type 0 where
  counter_op : String → ℕ → Op
  gauge_op : String → Float64 → Op
  batch_op : List Metrics → Op

unfoldable pub step : Op → MemStorage → MemStorage
step (counter_op name delta) s = (save_counter name delta s).1
step (gauge_op name value) s = (save_gauge name value s).1
step (batch_op ms) s = (save_batch ms s).1

unfoldable pub run : List Op → MemStorage → MemStorage
run [] s = s
run (op ∷ ops) s = run ops (step op s)

-- What one call asks of the counter `k`: the increments, in order.
abbrev metric_delta : String → Metrics → Option ℕ
metric_delta k m = if m.id == k then (if m.mtype == counter then m.delta else none) else none

abbrev metric_value : String → Metrics → Option Float64
metric_value k m =
    if m.id == k
    then (if m.mtype == counter then none else if m.mtype == gauge then m.value else none)
    else none

-- Two increments of one counter, either of which may be missing.
abbrev pub plus : Option ℕ → Option ℕ → Option ℕ
plus none b = b
plus (some a) none = some a
plus (some a) (some b) = some (a + b)

abbrev batch_delta : String → List Metrics → Option ℕ
batch_delta k [] = none
batch_delta k (m ∷ ms) = plus (metric_delta k m) (batch_delta k ms)

abbrev batch_value : String → List Metrics → Option Float64
batch_value k [] = none
batch_value k (m ∷ ms) = first_some (batch_value k ms) (metric_value k m)

abbrev op_delta : String → Op → Option ℕ
op_delta k (counter_op name delta) = if name == k then some delta else none
op_delta k (gauge_op name value) = none
op_delta k (batch_op ms) = batch_delta k ms

abbrev op_value : String → Op → Option Float64
op_value k (counter_op name delta) = none
op_value k (gauge_op name value) = if name == k then some value else none
op_value k (batch_op ms) = batch_value k ms

-- The specification of a counter: the exact sum of the increments, as bit patterns.
unfoldable pub total : String → List Op → Option ℕ
total k [] = none
total k (op ∷ ops) = plus (op_delta k op) (total k ops)

-- The specification of a gauge: the last value written.
unfoldable pub last : String → List Op → Option Float64
last k [] = none
last k (op ∷ ops) = first_some (last k ops) (op_value k op)

-- A total as an int64.
abbrev pub wrapped : Option ℕ → Option ℕ
wrapped none = none
wrapped (some n) = some (n % two64)

-- What increments that add up to `total` make of a stored counter.
abbrev accumulate : Option ℕ → Option ℕ → Option ℕ
accumulate o none = o
accumulate o (some d) = some (add64 (or_else o 0) d)

accumulate-plus : (o a b : Option ℕ) → accumulate (accumulate o a) b ≡ accumulate o (plus a b)
unfolding add64
accumulate-plus o none b = refl
accumulate-plus o (some a) none = refl
accumulate-plus o (some a) (some b) = ap some (omega arith)

first_some_assoc {ℓ} :
    {A : Type ℓ} (a b c : Option A) → first_some (first_some a b) c ≡ first_some a (first_some b c)
first_some_assoc none b c = refl
first_some_assoc (some a) b c = refl

total_set : IsSet (Option ℕ)
total_set = hlevel

module _ (k : String) where
  save_metric-counters :
      (m : Metrics) (s : MemStorage)
      → get (save_metric m s).counters k ≡ accumulate (get s.counters k) (metric_delta k m)
  unfolding save_metric
  save_metric-counters m s = grind (arith, get-put, eq_iff m.id k)

  save_metric-gauges :
      (m : Metrics) (s : MemStorage)
      → get (save_metric m s).gauges k ≡ first_some (metric_value k m) (get s.gauges k)
  unfolding save_metric
  save_metric-gauges m s = grind (arith, get-put, eq_iff m.id k)

  save_metrics-counters :
      (ms : List Metrics) (s : MemStorage)
      → get (save_metrics ms s).counters k ≡ accumulate (get s.counters k) (batch_delta k ms)
  unfolding save_metrics
  save_metrics-counters [] s = refl
  save_metrics-counters (m ∷ ms) s =
      rw (save_metrics-counters ms (save_metric m s), save_metric-counters m s)
        (accumulate-plus _ (metric_delta k m) (batch_delta k ms))

  save_metrics-gauges :
      (ms : List Metrics) (s : MemStorage)
      → get (save_metrics ms s).gauges k ≡ first_some (batch_value k ms) (get s.gauges k)
  unfolding save_metrics
  save_metrics-gauges [] s = refl
  save_metrics-gauges (m ∷ ms) s =
      rw (save_metrics-gauges ms (save_metric m s), save_metric-gauges m s)
        (sym (first_some_assoc (batch_value k ms) (metric_value k m) _))

  step-counters :
      (op : Op) (s : MemStorage)
      → get (step op s).counters k ≡ accumulate (get s.counters k) (op_delta k op)
  unfolding step save_counter save_gauge save_batch
  step-counters (counter_op name delta) s = ground (
    arith,
    get-put s.counters name k (add64 (or_else (get s.counters name) 0) delta),
    eq_iff name k,
  )
  step-counters (gauge_op name value) s = refl
  step-counters (batch_op ms) s = save_metrics-counters ms s

  step-gauges :
      (op : Op) (s : MemStorage)
      → get (step op s).gauges k ≡ first_some (op_value k op) (get s.gauges k)
  unfolding step save_counter save_gauge save_batch
  step-gauges (counter_op name delta) s = refl
  step-gauges (gauge_op name value) s = ground (arith, get-put s.gauges name k value)
  step-gauges (batch_op ms) s = save_metrics-gauges ms s

  run-counters :
      (ops : List Op) (s : MemStorage)
      → get (run ops s).counters k ≡ accumulate (get s.counters k) (total k ops)
  unfolding run total
  run-counters [] s = refl
  run-counters (op ∷ ops) s =
      rw (run-counters ops (step op s), step-counters op s)
        (accumulate-plus _ (op_delta k op) (total k ops))

  run-gauges :
      (ops : List Op) (s : MemStorage)
      → get (run ops s).gauges k ≡ first_some (last k ops) (get s.gauges k)
  unfolding run last
  run-gauges [] s = refl
  run-gauges (op ∷ ops) s =
      rw (run-gauges ops (step op s), step-gauges op s)
        (sym (first_some_assoc (last k ops) (op_value k op) _))

  accumulate-none : (o : Option ℕ) → accumulate none o ≡ wrapped o
  unfolding add64
  accumulate-none none = refl
  accumulate-none (some d) = ap some (omega arith)

  -- After any sequence of calls on a new store, a counter holds the sum of all the increments that
  -- the calls and their batches made to its name, modulo 2 ^ 64, and is missing if there were none;
  -- a gauge holds the last value written under its name, and is missing if there was none.
  pub run-new :
      (ops : List Op)
      → (get (run ops new).counters k ≡ wrapped (total k ops))
        × (get (run ops new).gauges k ≡ last k ops)
  run-new ops = (
    rw (run-counters ops new, get-empty {V = ℕ} k) (accumulate-none (total k ops)),
    rw (run-gauges ops new, get-empty {V = Float64} k) (first_some-none (last k ops)),
  )
    where
      first_some-none : (o : Option Float64) → first_some o none ≡ o
      first_some-none none = refl
      first_some-none (some v) = refl

  total_swap : (a b c : Option ℕ) → plus a (plus b c) ≡ plus b (plus a c)
  total_swap none b c = refl
  total_swap (some a) none c = refl
  total_swap (some a) (some b) none = ap some (omega arith)
  total_swap (some a) (some b) (some c) = ap some (omega arith)

  total-permᴰ : {ops ops' : List Op} → Permᴰ ops ops' → total k ops ≡ total k ops'
  unfolding total
  total-permᴰ Permᴰ.nil = refl
  total-permᴰ (Permᴰ.cons {a} {b} {l₁} {l₂} e p) = cc (ap (op_delta k) e, total-permᴰ p)
  total-permᴰ (Permᴰ.swap {a} {b} {a'} {b'} {l} e e') =
      total_swap (op_delta k a) (op_delta k b) (total k l)
      ∙ ap₂ (λ x y. plus (op_delta k x) (plus (op_delta k y) (total k l))) e' e
  total-permᴰ (Permᴰ.trans p q) = total-permᴰ p ∙ total-permᴰ q

  -- The order in which concurrent calls take the mutex does not change any counter: two sequences
  -- of the same calls leave the same value in it.
  pub run-perm :
      {ops ops' : List Op} (s : MemStorage)
      → Perm ops ops'
      → get (run ops s).counters k ≡ get (run ops' s).counters k
  run-perm {ops} {ops'} s p =
      rw (run-counters ops s, run-counters ops' s)
        (ap (accumulate (get s.counters k))
          (∥∥₁_elim p (total_set (total k ops) (total k ops')) total-permᴰ))
