-- ===== src/Storage/Refinement.antt =====
-- The in-memory store (internal/storage/mem_storage.go) against the contract of a repository.
use rtmetrics.Base.{
  ℕ, String, ◌≡◌, refl, Option, none, some, List, [], ◌∷◌, arith, eq_refl, or_else,
}
use rtmetrics.Base.Int64.{add64}
use rtmetrics.Base.GoMap.{Iteration, get, get-put, get-fill_range}
use rtmetrics.Model.{Float64, Metrics}
use rtmetrics.Repository.{Error, ok}
use rtmetrics.Repository.Contract.{
  View, SameView, Implements, add_counter, apply_metric, apply_batch, SameView-refl, SameView-trans,
  SameView-apply_batch, Found, FoundGauge,
}
use rtmetrics.Storage.{
  MemStorage, save_counter, save_gauge, save_metric, save_metrics, save_batch, get_counter,
  or_missing, get_gauge, get_all_counters, get_all_gauges, mem_repository,
}

-- What a client can see of the store.
abbrev pub view : MemStorage → View
view s = record { counters = λ k. get s.counters k; gauges = λ k. get s.gauges k }

module _ (s : MemStorage) where
  pub save_counter-Contract :
      (name : String) (delta : ℕ)
      → ((save_counter name delta s).0 ≡ ok (add64 (or_else (get s.counters name) 0) delta))
        × SameView (view (save_counter name delta s).1) (add_counter name delta (view s))
  unfolding save_counter
  save_counter-Contract name delta = (
    simp (get-put, eq_refl),
    record { counters = λ k. get-put s.counters name k _; gauges = λ k. refl },
  )

  save_metric-Contract : (m : Metrics) → SameView (view (save_metric m s)) (apply_metric m (view s))
  unfolding save_metric
  save_metric-Contract m = record {
    counters = λ k. grind (arith, get-put);
    gauges = λ k. grind (arith, get-put);
  }

pub save_metrics-Contract :
    (ms : List Metrics) (s : MemStorage)
    → SameView (view (save_metrics ms s)) (apply_batch ms (view s))
unfolding save_metrics
save_metrics-Contract [] s = SameView-refl (view s)
save_metrics-Contract (m ∷ ms) s =
    SameView-trans (save_metrics-Contract ms (save_metric m s))
      (SameView-apply_batch ms (save_metric-Contract s m))

or_missing-Found : (o : Option ℕ) (e : Error) → Found o (or_missing o e)
or_missing-Found none e = (e, refl)
or_missing-Found (some v) e = refl

or_missing-FoundGauge : (o : Option Float64) (e : Error) → FoundGauge o (or_missing o e)
or_missing-FoundGauge none e = (e, refl)
or_missing-FoundGauge (some v) e = refl

module _ (ints : Iteration ℕ) (floats : Iteration Float64) where
  -- The in-memory store implements the contract of a repository, in whatever order its loops over
  -- the maps run: a counter accumulates in int64, a gauge is replaced, a batch has the effect of its
  -- metrics one after another, reads change nothing, and no write fails.
  pub mem_repository-Implements : Implements (mem_repository ints floats) view
  unfolding save_gauge save_batch get_counter get_gauge get_all_counters get_all_gauges
  mem_repository-Implements = record {
    counter_saved = λ name delta s. save_counter-Contract s name delta;
    gauge_saved = λ name value s.
        (refl, record { counters = λ k. refl; gauges = λ k. get-put s.gauges name k value });
    batch_saved = λ ms s. (refl, save_metrics-Contract ms s);
    counter_read = λ name s. (or_missing-Found _ _, SameView-refl (view s));
    gauge_read = λ name s. (or_missing-FoundGauge _ _, SameView-refl (view s));
    all_counters_read = λ s. (
      (_, refl, λ k. get-fill_range _ s.counters k (ints.is_range s.counters)),
      SameView-refl (view s),
    );
    all_gauges_read = λ s. (
      (_, refl, λ k. get-fill_range _ s.gauges k (floats.is_range s.gauges)),
      SameView-refl (view s),
    );
  }
