-- ===== src/Agent/Run.antt =====
-- Run of internal/agent/runner.go: the loops pollRuntime, pollSystem and report beside each other, and the
-- last flush after them. A run is the sequence of what the loops do under the runner's mutex, as the
-- tickers and the scheduler order it; the workers are in Agent/Pool.
pub mod Deltas
pub mod Counted
use rtmetrics.Base.{ℕ, String, List, [], ◌∷◌}
use rtmetrics.Model.{Metrics}
use rtmetrics.Repository.{Result}
use rtmetrics.Agent.Collector.{GaugeMetrics, SystemMetrics}
use rtmetrics.Agent.Runner.{
  Runner, Turn, update_runtime_metrics, update_system_metrics, submit_current_metrics, copy_batch,
}

-- A round of one of the loops, with what Collect and CollectSystem returned and how the calls of
-- Submit end.
pub data Event : Type 0 where
  polls_runtime : GaugeMetrics → Event
  polls_system : Result SystemMetrics → Event
  reports : (ℕ → Turn) → Event

module _ (core_name : ℕ → String) where
  -- flush
  unfoldable pub flush : (ℕ → Turn) → Runner → Runner
  flush turn r = submit_current_metrics core_name turn r

  -- snapshot
  unfoldable pub snapshot : Runner → List Metrics
  snapshot r = (copy_batch core_name r).0

  unfoldable pub one_round : Event → Runner → Runner
  one_round (polls_runtime gauges) r = update_runtime_metrics gauges r
  one_round (polls_system system) r = update_system_metrics system r
  one_round (reports turn) r = flush turn r

  unfoldable pub rounds : List Event → Runner → Runner
  rounds [] r = r
  rounds (e ∷ es) r = rounds es (one_round e r)

  -- Run: the first collections of the two polling loops are among the events.
  unfoldable pub run : List Event → (ℕ → Turn) → Runner → Runner
  run events last r = flush last (rounds events r)
