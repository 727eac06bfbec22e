-- ===== src/Agent/Collector.antt =====
-- internal/agent/collector.go and system.go: the metrics that the agent collects. What runtime,
-- math/rand and gopsutil measure is an argument, and so is the conversion of a uint64 to a float64.
use rtmetrics.Base.{ℕ, suc, String, none, some, List, [], ◌∷◌, ◌++◌}
use rtmetrics.Model.{Float64, Metrics, counter, gauge, new_gauge}

pub record CountMetrics : Type 0 where
  -- an int64
  pub poll_count : ℕ

pub record GaugeMetrics : Type 0 where
  pub alloc : Float64
  pub buck_hash_sys : Float64
  pub frees : Float64
  pub gc_cpu_fraction : Float64
  pub gc_sys : Float64
  pub heap_alloc : Float64
  pub heap_idle : Float64
  pub heap_inuse : Float64
  pub heap_objects : Float64
  pub heap_released : Float64
  pub heap_sys : Float64
  pub last_gc : Float64
  pub lookups : Float64
  pub mcache_inuse : Float64
  pub mcache_sys : Float64
  pub mspan_inuse : Float64
  pub mspan_sys : Float64
  pub mallocs : Float64
  pub next_gc : Float64
  pub num_forced_gc : Float64
  pub num_gc : Float64
  pub other_sys : Float64
  pub pause_total_ns : Float64
  pub stack_inuse : Float64
  pub stack_sys : Float64
  pub sys : Float64
  pub total_alloc : Float64
  pub random_value : Float64

-- runtime.MemStats: unsigned integers, but for the fraction, which is a float64.
pub record MemStats : Type 0 where
  pub alloc : ℕ
  pub buck_hash_sys : ℕ
  pub frees : ℕ
  pub gc_cpu_fraction : Float64
  pub gc_sys : ℕ
  pub heap_alloc : ℕ
  pub heap_idle : ℕ
  pub heap_inuse : ℕ
  pub heap_objects : ℕ
  pub heap_released : ℕ
  pub heap_sys : ℕ
  pub last_gc : ℕ
  pub lookups : ℕ
  pub mcache_inuse : ℕ
  pub mcache_sys : ℕ
  pub mspan_inuse : ℕ
  pub mspan_sys : ℕ
  pub mallocs : ℕ
  pub next_gc : ℕ
  pub num_forced_gc : ℕ
  pub num_gc : ℕ
  pub other_sys : ℕ
  pub pause_total_ns : ℕ
  pub stack_inuse : ℕ
  pub stack_sys : ℕ
  pub sys : ℕ
  pub total_alloc : ℕ

-- Collect, of the statistics read and the random number drawn.
unfoldable pub collect : (ℕ → Float64) → MemStats → Float64 → GaugeMetrics
collect float m random = record {
  alloc = float m.alloc;
  buck_hash_sys = float m.buck_hash_sys;
  frees = float m.frees;
  gc_cpu_fraction = m.gc_cpu_fraction;
  gc_sys = float m.gc_sys;
  heap_alloc = float m.heap_alloc;
  heap_idle = float m.heap_idle;
  heap_inuse = float m.heap_inuse;
  heap_objects = float m.heap_objects;
  heap_released = float m.heap_released;
  heap_sys = float m.heap_sys;
  last_gc = float m.last_gc;
  lookups = float m.lookups;
  mcache_inuse = float m.mcache_inuse;
  mcache_sys = float m.mcache_sys;
  mspan_inuse = float m.mspan_inuse;
  mspan_sys = float m.mspan_sys;
  mallocs = float m.mallocs;
  next_gc = float m.next_gc;
  num_forced_gc = float m.num_forced_gc;
  num_gc = float m.num_gc;
  other_sys = float m.other_sys;
  pause_total_ns = float m.pause_total_ns;
  stack_inuse = float m.stack_inuse;
  stack_sys = float m.stack_sys;
  sys = float m.sys;
  total_alloc = float m.total_alloc;
  random_value = random;
}

-- m.Metrics{ID: id, MType: m.Gauge, Value: &v}
abbrev pub gauge_of : String → Float64 → Metrics
gauge_of id v = record { id = id; mtype = gauge; delta = none; value = some v; hash = "" }

-- Gauges of GaugeMetrics
unfoldable pub runtime_gauges : GaugeMetrics → List Metrics
runtime_gauges g =
    gauge_of "Alloc" g.alloc
    ∷ gauge_of "BuckHashSys" g.buck_hash_sys
    ∷ gauge_of "Frees" g.frees
    ∷ gauge_of "GCCPUFraction" g.gc_cpu_fraction
    ∷ gauge_of "GCSys" g.gc_sys
    ∷ gauge_of "HeapAlloc" g.heap_alloc
    ∷ gauge_of "HeapIdle" g.heap_idle
    ∷ gauge_of "HeapInuse" g.heap_inuse
    ∷ gauge_of "HeapObjects" g.heap_objects
    ∷ gauge_of "HeapReleased" g.heap_released
    ∷ gauge_of "HeapSys" g.heap_sys
    ∷ gauge_of "LastGC" g.last_gc
    ∷ gauge_of "Lookups" g.lookups
    ∷ gauge_of "MCacheInuse" g.mcache_inuse
    ∷ gauge_of "MCacheSys" g.mcache_sys
    ∷ gauge_of "MSpanInuse" g.mspan_inuse
    ∷ gauge_of "MSpanSys" g.mspan_sys
    ∷ gauge_of "Mallocs" g.mallocs
    ∷ gauge_of "NextGC" g.next_gc
    ∷ gauge_of "NumForcedGC" g.num_forced_gc
    ∷ gauge_of "NumGC" g.num_gc
    ∷ gauge_of "OtherSys" g.other_sys
    ∷ gauge_of "PauseTotalNs" g.pause_total_ns
    ∷ gauge_of "StackInuse" g.stack_inuse
    ∷ gauge_of "StackSys" g.stack_sys
    ∷ gauge_of "Sys" g.sys
    ∷ gauge_of "TotalAlloc" g.total_alloc
    ∷ gauge_of "RandomValue" g.random_value
    ∷ []

-- BuildBatch
unfoldable pub build_batch : GaugeMetrics → CountMetrics → List Metrics
unfolding runtime_gauges
build_batch gauges counters =
    runtime_gauges gauges
    ++ record {
      id = "PollCount";
      mtype = counter;
      delta = some counters.poll_count;
      value = none;
      hash = "";
    }
      ∷ []

pub record SystemMetrics : Type 0 where
  pub total_memory : Float64
  pub free_memory : Float64
  pub cpu_utilization : List Float64

-- The loop of Gauges of SystemMetrics, from the core `i`; `core_name` is
-- fmt.Sprintf("CPUutilization%d", i).
unfoldable pub cpu_gauges : (ℕ → String) → ℕ → List Float64 → List Metrics
unfolding new_gauge
cpu_gauges core_name i [] = []
cpu_gauges core_name i (v ∷ vs) = new_gauge (core_name i) v ∷ cpu_gauges core_name (suc i) vs

-- Gauges of SystemMetrics
unfoldable pub system_gauges : (ℕ → String) → SystemMetrics → List Metrics
unfolding cpu_gauges new_gauge
system_gauges core_name s =
    new_gauge "TotalMemory" s.total_memory
    ∷ new_gauge "FreeMemory" s.free_memory
    ∷ cpu_gauges core_name 1 s.cpu_utilization
