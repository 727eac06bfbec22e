-- ===== src/Agent/Run/Deltas.antt =====
-- The increments that the agent's batches report (internal/agent/collector.go, system.go).
use rtmetrics.Base.{
  ℕ, suc, ◌<◌, ◌≡◌, String, none, some, List, [], ◌∷◌, ◌++◌, concat, or_else, refl, sym, ap, ◌∙◌,
  arith,
}
use rtmetrics.Base.Int64.{add64, add64-lt, add64-zero, add64_assoc, two64}
use rtmetrics.Model.{Float64, Metrics, counter}
use rtmetrics.Agent.Collector.{
  CountMetrics, GaugeMetrics, SystemMetrics, build_batch, runtime_gauges, system_gauges, cpu_gauges,
}
use rtmetrics.Agent.Runner.{Runner, current_batch}

-- The increments of a list of metrics, added up in int64.
abbrev pub deltas : List Metrics → ℕ
deltas [] = 0
deltas (m ∷ ms) = add64 (or_else m.delta 0) (deltas ms)

pub deltas-lt : (ms : List Metrics) → deltas ms < two64
deltas-lt [] = omega arith
deltas-lt (m ∷ ms) = add64-lt (or_else m.delta 0) (deltas ms)

pub deltas-append : (xs ys : List Metrics) → deltas (xs ++ ys) ≡ add64 (deltas xs) (deltas ys)
deltas-append [] ys = sym (add64-zero (deltas ys) (deltas-lt ys))
deltas-append (m ∷ ms) ys =
    ap (add64 (or_else m.delta 0)) (deltas-append ms ys)
    ∙ sym (add64_assoc (or_else m.delta 0) (deltas ms) (deltas ys))

pub concat-append :
    (xs ys : List (List Metrics))
    → deltas (concat (xs ++ ys)) ≡ add64 (deltas (concat xs)) (deltas (concat ys))
concat-append [] ys = sym (add64-zero (deltas (concat ys)) (deltas-lt (concat ys)))
concat-append (x ∷ xs) ys =
    deltas-append x (concat (xs ++ ys))
    ∙ ap (add64 (deltas x)) (concat-append xs ys)
    ∙ sym (add64_assoc (deltas x) (deltas (concat xs)) (deltas (concat ys)))
    ∙ ap (λ n. add64 n (deltas (concat ys))) (sym (deltas-append x (concat xs)))

-- Gauges have no increment, and PollCount is the polls taken.
deltas-runtime_gauges : (g : GaugeMetrics) → deltas (runtime_gauges g) ≡ 0
unfolding runtime_gauges add64
deltas-runtime_gauges g = refl

deltas-cpu_gauges :
    (core_name : ℕ → String) (i : ℕ) (vs : List Float64) → deltas (cpu_gauges core_name i vs) ≡ 0
unfolding cpu_gauges add64
deltas-cpu_gauges core_name i [] = refl
deltas-cpu_gauges core_name i (v ∷ vs) = rw (deltas-cpu_gauges core_name (suc i) vs) refl

abbrev poll_count_metric : ℕ → Metrics
poll_count_metric n = record {
  id = "PollCount";
  mtype = counter;
  delta = some n;
  value = none;
  hash = "";
}

build_batch-append :
    (g : GaugeMetrics) (c : CountMetrics)
    → build_batch g c ≡ runtime_gauges g ++ poll_count_metric c.poll_count ∷ []
unfolding build_batch
build_batch-append g c = refl

deltas-system_gauges :
    (core_name : ℕ → String) (s : SystemMetrics) → deltas (system_gauges core_name s) ≡ 0
unfolding system_gauges add64
deltas-system_gauges core_name s = rw (deltas-cpu_gauges core_name 1 s.cpu_utilization) refl

only : (a b c : ℕ) → a ≡ 0 → b ≡ 0 → c < two64 → add64 (add64 a (add64 c 0)) b ≡ c
unfolding add64
only a b c ha hb hc = omega arith

pub deltas-current_batch :
    (core_name : ℕ → String) (r : Runner)
    → r.counters.poll_count < two64
    → deltas (current_batch core_name r) ≡ r.counters.poll_count
deltas-current_batch core_name r h =
    deltas-append (build_batch r.gauges r.counters) (system_gauges core_name r.system)
    ∙ ap (λ l. add64 (deltas l) (deltas (system_gauges core_name r.system)))
        (build_batch-append r.gauges r.counters)
    ∙ ap (λ n. add64 n (deltas (system_gauges core_name r.system)))
        (deltas-append (runtime_gauges r.gauges) (poll_count_metric r.counters.poll_count ∷ []))
    ∙ only _ _ _ (deltas-runtime_gauges r.gauges) (deltas-system_gauges core_name r.system) h
