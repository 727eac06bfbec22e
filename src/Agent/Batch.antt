-- ===== src/Agent/Batch.antt =====
-- The batch of a report (internal/agent/collector.go, system.go, runner.go) in the form that the
-- server expects.
use rtmetrics.Base.{
  ℕ, suc, String, Bool, not, ◌&&◌, some, none, ◌≡◌, ◌≢◌, inl, inr, refl, false, true, List, [], ◌∷◌,
  All, All-append, arith, eq_iff, ◌==◌,
}
use rtmetrics.Model.{Float64, Metrics, counter, new_counter, new_gauge}
use rtmetrics.Proto.RoundTrip.{IsNamed}
use rtmetrics.Agent.Collector.{
  CountMetrics, GaugeMetrics, SystemMetrics, gauge_of, runtime_gauges, build_batch, cpu_gauges,
  system_gauges,
}
use rtmetrics.Agent.Runner.{Runner, current_batch}

named : (id : String) (v : Float64) → (id == "") ≡ false → IsNamed (gauge_of id v)
unfolding new_gauge
named id v e = (id, ground (arith, eq_iff id ""), inr (v, refl))

abbrev gauges_of : List (String × Float64) → List Metrics
gauges_of [] = []
gauges_of ((id, v) ∷ l) = gauge_of id v ∷ gauges_of l

abbrev all_named : List (String × Float64) → Bool
all_named [] = true
all_named ((id, v) ∷ l) = not (id == "") && all_named l

gauges_of-IsNamed : (l : List (String × Float64)) → all_named l ≡ true → All IsNamed (gauges_of l)
gauges_of-IsNamed [] h = tt
gauges_of-IsNamed ((id, v) ∷ l) h = (named id v (ground arith), gauges_of-IsNamed l (ground arith))

runtime_gauges-IsNamed : (g : GaugeMetrics) → All IsNamed (runtime_gauges g)
unfolding runtime_gauges
runtime_gauges-IsNamed g =
    gauges_of-IsNamed
      (("Alloc", g.alloc)
        ∷ ("BuckHashSys", g.buck_hash_sys)
        ∷ ("Frees", g.frees)
        ∷ ("GCCPUFraction", g.gc_cpu_fraction)
        ∷ ("GCSys", g.gc_sys)
        ∷ ("HeapAlloc", g.heap_alloc)
        ∷ ("HeapIdle", g.heap_idle)
        ∷ ("HeapInuse", g.heap_inuse)
        ∷ ("HeapObjects", g.heap_objects)
        ∷ ("HeapReleased", g.heap_released)
        ∷ ("HeapSys", g.heap_sys)
        ∷ ("LastGC", g.last_gc)
        ∷ ("Lookups", g.lookups)
        ∷ ("MCacheInuse", g.mcache_inuse)
        ∷ ("MCacheSys", g.mcache_sys)
        ∷ ("MSpanInuse", g.mspan_inuse)
        ∷ ("MSpanSys", g.mspan_sys)
        ∷ ("Mallocs", g.mallocs)
        ∷ ("NextGC", g.next_gc)
        ∷ ("NumForcedGC", g.num_forced_gc)
        ∷ ("NumGC", g.num_gc)
        ∷ ("OtherSys", g.other_sys)
        ∷ ("PauseTotalNs", g.pause_total_ns)
        ∷ ("StackInuse", g.stack_inuse)
        ∷ ("StackSys", g.stack_sys)
        ∷ ("Sys", g.sys)
        ∷ ("TotalAlloc", g.total_alloc)
        ∷ ("RandomValue", g.random_value)
        ∷ [])
      refl

abbrev poll_metric : CountMetrics → Metrics
poll_metric c = record {
  id = "PollCount";
  mtype = counter;
  delta = some c.poll_count;
  value = none;
  hash = "";
}

build_batch-IsNamed : (g : GaugeMetrics) (c : CountMetrics) → All IsNamed (build_batch g c)
unfolding build_batch new_counter
build_batch-IsNamed g c =
    All-append IsNamed (runtime_gauges g) (poll_metric c ∷ []) (runtime_gauges-IsNamed g) (
      (
        "PollCount",
        let id : String = "PollCount" in ground (arith, eq_iff id ""),
        inl (c.poll_count, refl),
      ),
      tt,
    )

module _ (core_name : ℕ → String) (h : (i : ℕ) → core_name i ≢ "") where
  cpu_gauges-IsNamed : (i : ℕ) (vs : List Float64) → All IsNamed (cpu_gauges core_name i vs)
  unfolding cpu_gauges
  cpu_gauges-IsNamed i [] = tt
  cpu_gauges-IsNamed i (v ∷ vs) = ((core_name i, h i, inr (v, refl)), cpu_gauges-IsNamed (suc i) vs)

  system_gauges-IsNamed : (s : SystemMetrics) → All IsNamed (system_gauges core_name s)
  unfolding system_gauges
  system_gauges-IsNamed s = (
    named "TotalMemory" s.total_memory refl,
    (named "FreeMemory" s.free_memory refl, cpu_gauges-IsNamed 1 s.cpu_utilization),
  )

  pub current_batch-IsNamed : (r : Runner) → All IsNamed (current_batch core_name r)
  current_batch-IsNamed r =
      All-append IsNamed (build_batch r.gauges r.counters) (system_gauges core_name r.system)
        (build_batch-IsNamed r.gauges r.counters) (system_gauges-IsNamed r.system)
