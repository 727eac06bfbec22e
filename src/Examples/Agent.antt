-- ===== src/Examples/Agent.antt =====
-- The theorems on internal/agent at concrete inputs.
use rtmetrics.Base.{
  ◌≢◌, ◌+◌, refl, eq_iff, ℕ, zero, suc, String, ◌≡◌, ◌≤◌, true, false, List, [], ◌∷◌, arith, length,
  concat, All,
}
use rtmetrics.Base.Int64.{pos, add64}
use rtmetrics.Model.{Float64}
use rtmetrics.Agent.Collector.{MemStats, collect}
use rtmetrics.Agent.Chunk.{at_least_one, chunk_batch}
use rtmetrics.Agent.Chunk.Partition.{chunk_batch-Partition}
use rtmetrics.Repository.{ok}
use rtmetrics.Agent.Collector.{build_batch, system_gauges}
use rtmetrics.Agent.Run.{Event, polls_runtime, polls_system, reports, rounds, run, snapshot}
use rtmetrics.Agent.Run.Counted.{Accepts, total, polls_made, meanwhile, run-total}
use rtmetrics.Agent.Runner.{
  copy_batch, Runner, Turn, take_batch, current_batch, submit_current_metrics,
}
use rtmetrics.Agent.Runner.Reports.{Reported, submit_current_metrics-Reported}

abbrev five : List ℕ
five = 1 ∷ 2 ∷ 3 ∷ 4 ∷ 5 ∷ []

chunk_batch-Partition_example :
    (concat (chunk_batch five (pos 2)) ≡ five)
    × All (λ chunk. 1 ≤ length chunk) (chunk_batch five (pos 2))
    × (length (chunk_batch five (pos 2)) ≤ at_least_one (pos 2))
chunk_batch-Partition_example = chunk_batch-Partition five (pos 2)

abbrev some_stats : MemStats
some_stats = record {
  alloc = 1;
  buck_hash_sys = 1;
  frees = 1;
  gc_cpu_fraction = record { bits = 0 };
  gc_sys = 1;
  heap_alloc = 1;
  heap_idle = 1;
  heap_inuse = 1;
  heap_objects = 1;
  heap_released = 1;
  heap_sys = 1;
  last_gc = 1;
  lookups = 1;
  mcache_inuse = 1;
  mcache_sys = 1;
  mspan_inuse = 1;
  mspan_sys = 1;
  mallocs = 1;
  next_gc = 1;
  num_forced_gc = 1;
  num_gc = 1;
  other_sys = 1;
  pause_total_ns = 1;
  stack_inuse = 1;
  stack_sys = 1;
  sys = 1;
  total_alloc = 1;
}

abbrev float_of : ℕ → Float64
float_of n = record { bits = n }

-- Three polls so far, and two workers.
abbrev pub some_runner : Runner
some_runner = record {
  pool = record { workers = pos 2; jobs = [] };
  poll_interval = pos 2000000000;
  report_interval = pos 10000000000;
  gauges = collect float_of some_stats (float_of 4);
  system = record {
    total_memory = float_of 8;
    free_memory = float_of 2;
    cpu_utilization = float_of 1 ∷ [];
  };
  counters = record { poll_count = 3 };
}

abbrev pub core : ℕ → String
core i = "CPUutilization1"

-- The queue takes the first chunk, then the context ends.
abbrev one_chunk : ℕ → Turn
one_chunk zero = record { done = false; queued = true; polled = [] }
one_chunk (suc i) = record { done = false; queued = false; polled = [] }

submit_current_metrics-Reported_example :
    (n : ℕ) × Reported one_chunk some_runner.counters.poll_count
      (chunk_batch (current_batch core some_runner) some_runner.pool.workers)
      (take_batch core some_runner).1
      (submit_current_metrics core one_chunk some_runner)
      n
submit_current_metrics-Reported_example =
    submit_current_metrics-Reported core one_chunk some_runner (omega arith)

pub core_named : (i : ℕ) → core i ≢ ""
core_named i = let name : String = "CPUutilization1" in ground (arith, eq_iff name "")

-- Every chunk is queued, and a poll comes between two of them.
abbrev all_chunks : ℕ → Turn
all_chunks i = record { done = false; queued = true; polled = some_runner.gauges ∷ [] }

abbrev some_events : List Event
some_events =
    polls_runtime some_runner.gauges
    ∷ reports all_chunks
    ∷ polls_system (ok some_runner.system)
    ∷ polls_runtime some_runner.gauges
    ∷ []

all_chunks-Accepts : Accepts all_chunks
all_chunks-Accepts i = (refl, refl)

run-total_example :
    total (run core some_events all_chunks some_runner)
    ≡ add64 (total some_runner) (
        polls_made core some_events some_runner
        + meanwhile core all_chunks (rounds core some_events some_runner))
run-total_example =
    run-total core some_events all_chunks some_runner (all_chunks-Accepts, tt) all_chunks-Accepts
      (omega arith)

snapshot_test : length (snapshot core some_runner) ≡ 32
unfolding snapshot copy_batch build_batch system_gauges
snapshot_test = refl
