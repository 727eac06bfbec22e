-- ===== src/Agent/Runner.antt =====
-- internal/agent/runner.go and the queue of pool.go: the state that the runner's mutex guards, and
-- the reports it hands to the workers. A channel is the list of the batches sent on it; what a
-- select on the context and the channel comes to is an argument, as is what other goroutines do
-- between two chunks.
pub mod Reports
use rtmetrics.Base.{
  ℕ, zero, suc, String, Bool, true, false, Option, none, some, List, [], ◌∷◌, ◌++◌, if◌then◌else◌,
  nat_eq, length,
}
use rtmetrics.Base.Int64.{ℤ, pos, negsuc, add64}
use rtmetrics.Model.{Float64, Metrics}
use rtmetrics.Repository.{Result, ok, err, other}
use rtmetrics.Agent.Collector.{
  CountMetrics, GaugeMetrics, SystemMetrics, build_batch, system_gauges,
}
use rtmetrics.Agent.Chunk.{chunk_batch}

-- The batches sent on `jobs`, the first one first.
pub record WorkerPool : Type 0 where
  pub workers : ℤ
  pub jobs : List (List Metrics)

pub record Runner : Type 0 where
  pub pool : WorkerPool
  pub poll_interval : ℤ
  pub report_interval : ℤ
  pub gauges : GaugeMetrics
  pub system : SystemMetrics
  pub counters : CountMetrics

-- `n < 1`, `d <= 0`
abbrev pub below_one : ℤ → Bool
below_one (pos (suc n)) = false
below_one (pos zero) = true
below_one (negsuc n) = true

-- NewWorkerPool and NewRunner. The zero values GaugeMetrics{} and SystemMetrics{} are arguments.
unfoldable pub new_worker_pool : ℤ → Result WorkerPool
new_worker_pool workers =
    if below_one workers
    then err (other "rate limit must be >= 1")
    else ok (record { workers = workers; jobs = [] })

abbrev pub new_runner_of : GaugeMetrics → SystemMetrics → ℤ → ℤ → Result WorkerPool → Result Runner
new_runner_of g s poll report (err e) = err e
new_runner_of g s poll report (ok p) = ok (record {
  pool = p;
  poll_interval = poll;
  report_interval = report;
  gauges = g;
  system = s;
  counters = record { poll_count = 0 };
})

unfoldable pub new_runner : GaugeMetrics → SystemMetrics → ℤ → ℤ → ℤ → Result Runner
unfolding new_worker_pool
new_runner g s poll report rate_limit =
    if below_one poll
    then err (other "poll interval must be > 0")
    else if below_one report
    then err (other "report interval must be > 0")
    else new_runner_of g s poll report (new_worker_pool rate_limit)

-- updateRuntimeMetrics, with what Collect returned.
unfoldable pub update_runtime_metrics : GaugeMetrics → Runner → Runner
unfolding add64
update_runtime_metrics gauges r = record {
  pool = r.pool;
  poll_interval = r.poll_interval;
  report_interval = r.report_interval;
  gauges = gauges;
  system = r.system;
  counters = record { poll_count = add64 r.counters.poll_count 1 };
}

-- updateSystemMetrics, with what CollectSystem returned: on an error the runner keeps the last one.
unfoldable pub update_system_metrics : Result SystemMetrics → Runner → Runner
update_system_metrics (err e) r = r
update_system_metrics (ok system) r = record {
  pool = r.pool;
  poll_interval = r.poll_interval;
  report_interval = r.report_interval;
  gauges = r.gauges;
  system = system;
  counters = r.counters;
}

-- How the two selects of Submit end: whether the context is done before, and whether the channel
-- takes the batch or the context ends first.
pub record Turn : Type 0 where
  pub done : Bool
  pub queued : Bool
  -- What updateRuntimeMetrics stores, in other goroutines, before this call of Submit.
  pub polled : List GaugeMetrics

unfoldable pub submit : Turn → List Metrics → WorkerPool → Bool × WorkerPool
submit t [] p = (true, p)
submit t (m ∷ ms) p =
    if t.done
    then (false, p)
    else if t.queued
    then (true, record { workers = p.workers; jobs = p.jobs ++ (m ∷ ms) ∷ [] })
    else (false, p)

module _ (core_name : ℕ → String) where
  abbrev pub current_batch : Runner → List Metrics
  current_batch r = build_batch r.gauges r.counters ++ system_gauges core_name r.system

  -- takeBatch
  unfoldable pub take_batch : Runner → (List Metrics × ℕ) × Runner
  take_batch r = (
    (current_batch r, r.counters.poll_count),
    record {
      pool = r.pool;
      poll_interval = r.poll_interval;
      report_interval = r.report_interval;
      gauges = r.gauges;
      system = r.system;
      counters = record { poll_count = 0 };
    },
  )

  -- copyBatch
  unfoldable pub copy_batch : Runner → List Metrics × ℕ
  copy_batch r = (current_batch r, r.counters.poll_count)

abbrev pub with_pool : WorkerPool → Runner → Runner
with_pool p r = record {
  pool = p;
  poll_interval = r.poll_interval;
  report_interval = r.report_interval;
  gauges = r.gauges;
  system = r.system;
  counters = r.counters;
}

unfoldable pub add_poll_count : ℕ → Runner → Runner
unfolding add64
add_poll_count n r = if nat_eq n 0 then r else record {
  pool = r.pool;
  poll_interval = r.poll_interval;
  report_interval = r.report_interval;
  gauges = r.gauges;
  system = r.system;
  counters = record { poll_count = add64 r.counters.poll_count n };
}

-- The updates of other goroutines.
abbrev pub poll_all : List GaugeMetrics → Runner → Runner
poll_all [] r = r
poll_all (g ∷ gs) r = poll_all gs (update_runtime_metrics g r)

-- The loop of submitCurrentMetrics; `turn i` is the i-th call of Submit from here.
unfoldable pub submit_chunks : (ℕ → Turn) → ℕ → List (List Metrics) → Runner → Runner
submit_chunks turn polls [] r = r
submit_chunks turn polls (chunk ∷ chunks) r =
    let before = poll_all (turn 0).polled r in
    let sent = submit (turn 0) chunk before.pool in
    let next = with_pool sent.1 before in
    let rest = submit_chunks (λ i. turn (suc i)) polls chunks next in
    if sent.0 then rest else add_poll_count polls next

-- `if len(batch) == 0 { return }`, then the loop
unfoldable pub submit_batch : (ℕ → Turn) → ℕ → List Metrics → Runner → Runner
submit_batch turn polls [] r = r
submit_batch turn polls (m ∷ ms) r =
    submit_chunks turn polls (chunk_batch (m ∷ ms) r.pool.workers) r

unfoldable pub submit_current_metrics : (ℕ → String) → (ℕ → Turn) → Runner → Runner
submit_current_metrics core_name turn r =
    let taken = take_batch core_name r in submit_batch turn taken.0.1 taken.0.0 taken.1
