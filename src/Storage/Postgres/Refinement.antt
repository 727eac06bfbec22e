-- ===== src/Storage/Postgres/Refinement.antt =====
-- The store of internal/storage/postgres/postgres.go against the contract of a repository, where no
-- reply of the database is lost.
use rtmetrics.Base.{
  ℕ, String, Bool, false, ◌≡◌, refl, ◌∙◌, Option, none, some, List, [], ◌∷◌, eq_refl, or_else, ◌==◌,
  if◌then◌else◌, sym,
}
use rtmetrics.Base.Int64.{add64}
use rtmetrics.Base.GoMap.{get, empty}
use rtmetrics.Model.{Float64, Metrics, new_counter, new_gauge}
use rtmetrics.Repository.{Error, Result, ok, err}
use rtmetrics.Repository.Contract.{View, SameView, add_counter, set_gauge, apply_batch}
use rtmetrics.Repository.Fallible.{Written, IfOk, ImplementsOrFails}
use rtmetrics.Storage.Postgres.{
  failure, outcome, save_counter, save_gauge, save_batch, get_counter, get_gauge, get_all_counters,
  get_all_gauges, postgres_repository, list_counters, list_gauges, save_batch_once,
}
use rtmetrics.Storage.Postgres.Driver.{SqlDb}
use rtmetrics.Storage.Postgres.Behaviour.{Selected, Behaves}
use rtmetrics.Storage.Postgres.Retried.{Settled, do_retry-Settled}
use rtmetrics.Storage.Postgres.Transaction.{save_batch_once-Written}
use rtmetrics.Storage.Postgres.Scanned.{saved-Written, returned-read, found_or-read}
use rtmetrics.Storage.Postgres.Listing.{listed, listed-unchanged}

-- After the write of `x` in a cell, the cell holds `x` only.
stored :
    {A : Type 0} (name : String) (x : A) (rest : Option A)
    → (if◌then◌else◌ (name == name) (some x) rest) ≡ some x
stored name x rest = simp (eq_refl)

cell_is : {A : Type 0} (x a : A) (o t : Option A) → o ≡ some a → o ≡ t → t ≡ some x → a ≡ x
cell_is x a o t has same is = let e : some a ≡ some x = cc in cc

counter_written :
    (name : String) (x : ℕ) (b a t : View) (r : Result ℕ)
    → t.counters name ≡ some x
    → Written false x b a t r
    → IfOk (λ v. a.counters name ≡ some v) r
counter_written name x b a t (ok v) is (eq, same) = same.counters name ∙ rw eq is
counter_written name x b a t (err e) is h = tt

gauge_written :
    (name : String) (x : Float64) (b a t : View) (r : Result Float64)
    → t.gauges name ≡ some x
    → Written false x b a t r
    → IfOk (λ v. a.gauges name ≡ some v) r
gauge_written name x b a t (ok v) is (eq, same) = same.gauges name ∙ rw eq is
gauge_written name x b a t (err e) is h = tt

-- A value read from a cell that is the same before.
cell_read :
    {A : Type 0} (before after : Option A) (r : Result A)
    → after ≡ before
    → Selected before r
    → IfOk (λ a. after ≡ some a) r
cell_read before after (ok a) same h = same ∙ h
cell_read before after (err e) same h = tt

failure-Settled :
    {D : Type 0} (view : D → View) (ms : List Metrics) (before : View) (p : Result (Unit {0}) × D)
    → Written false tt before (view p.1) (apply_batch ms before) p.0
    → Settled ms before (view (failure p).1) (failure p).0
failure-Settled view ms before (ok u, d) h = h.1
failure-Settled view ms before (err e, d) h = h

outcome-Written :
    {D : Type 0} (view : D → View) (ms : List Metrics) (before : View) (q : Option Error × D)
    → Settled ms before (view q.1) q.0
    → Written false tt before (view (outcome q).1) (apply_batch ms before) (outcome q).0
outcome-Written view ms before (none, d) h = (refl, h)
outcome-Written view ms before (some e, d) h = h

module _ {D : Type 0} (db : SqlDb D) (view pending : D → View)
    (laws : Behaves false db view pending) (is_connection_exception : String → Bool)
    (ctx_err : Option Error) (cancelled : ℕ → Bool) where
  counter_saved :
      (name : String) (delta : ℕ) (d : D)
      → let p = save_counter db is_connection_exception ctx_err cancelled name delta d in
        Written false
          (add64 (or_else ((view d).counters name) 0) delta)
          (view d)
          (view p.1)
          (add_counter name delta (view d))
          p.0
  unfolding save_counter new_counter
  counter_saved name delta d =
      saved-Written view _ (λ a v. v.counters name ≡ some a)
        (λ t.
          counter_written name _ (view t) _ _ _ (stored name _ _)
            (laws.counter_upserted name delta t))
        _ ctx_err cancelled (new_counter name delta ∷ [])
        (λ t. add64 (or_else ((view t).counters name) 0) delta) (laws.counter_upserted name delta)
        (λ t a v has same. cell_is _ a _ _ has (same.counters name) (stored name _ _))
        "save counter" 0 d

  gauge_saved :
      (name : String) (value : Float64) (d : D)
      → let p = save_gauge db is_connection_exception ctx_err cancelled name value d in
        Written false value (view d) (view p.1) (set_gauge name value (view d)) p.0
  unfolding save_gauge new_gauge
  gauge_saved name value d =
      saved-Written view _ (λ a v. v.gauges name ≡ some a)
        (λ t.
          gauge_written name _ (view t) _ _ _ (stored name _ _) (laws.gauge_upserted name value t))
        _ ctx_err cancelled (new_gauge name value ∷ []) (λ t. value)
        (laws.gauge_upserted name value)
        (λ t a v has same. cell_is _ a _ _ has (same.gauges name) (stored name _ _)) "save gauge"
        (record { bits = 0 }) d

  batch_saved :
      (ms : List Metrics) (d : D)
      → let p = save_batch db is_connection_exception ctx_err cancelled ms d in
        Written false tt (view d) (view p.1) (apply_batch ms (view d)) p.0
  unfolding save_batch
  batch_saved ms d = outcome-Written view ms (view d) _ (
      do_retry-Settled _ (λ t. failure (save_batch_once db ms t)) view ms
        (λ t.
          failure-Settled view ms (view t) (save_batch_once db ms t)
            (save_batch_once-Written false db view pending laws ms t))
        ctx_err cancelled d)

  counter_read :
      (name : String) (d : D)
      → let p = get_counter db is_connection_exception ctx_err cancelled name d in
        IfOk (λ v. (view d).counters name ≡ some v) p.0 × SameView (view p.1) (view d)
  unfolding get_counter
  counter_read name d =
      found_or-read view _ (λ a v. v.counters name ≡ some a)
        (λ t.
          let (row, same) = laws.counter_selected name t in
          cell_read _ _ _ (same.counters name) row)
        _ ctx_err cancelled (λ t. (laws.counter_selected name t).1)
        (λ a v w same h. sym (same.counters name) ∙ h) "counter not found" "get counter" (0, d)

  gauge_read :
      (name : String) (d : D)
      → let p = get_gauge db is_connection_exception ctx_err cancelled name d in
        IfOk (λ v. (view d).gauges name ≡ some v) p.0 × SameView (view p.1) (view d)
  unfolding get_gauge
  gauge_read name d =
      found_or-read view _ (λ a v. v.gauges name ≡ some a)
        (λ t.
          let (row, same) = laws.gauge_selected name t in cell_read _ _ _ (same.gauges name) row)
        _ ctx_err cancelled (λ t. (laws.gauge_selected name t).1)
        (λ a v w same h. sym (same.gauges name) ∙ h) "gauge not found" "get gauge"
        (record { bits = 0 }, d)

  all_counters_read :
      (d : D)
      → let p = get_all_counters db is_connection_exception ctx_err cancelled d in
        IfOk (λ m. (k : String) → get m k ≡ (view d).counters k) p.0 × SameView (view p.1) (view d)
  unfolding get_all_counters
  all_counters_read d =
      returned-read view (list_counters db) (λ m v. (k : String) → get m k ≡ v.counters k)
        (λ t.
          let (rows, same) = laws.counters_listed t in
          listed view (view t).counters _ _
            (λ k. sym ((listed-unchanged view (view t).counters (view t) _ same).counters k)) rows)
        _ ctx_err cancelled
        (λ t. listed-unchanged view (view t).counters (view t) _ (laws.counters_listed t).1)
        (λ m v w same h k. h k ∙ same.counters k) "get all counters" (empty, d)

  all_gauges_read :
      (d : D)
      → let p = get_all_gauges db is_connection_exception ctx_err cancelled d in
        IfOk (λ m. (k : String) → get m k ≡ (view d).gauges k) p.0 × SameView (view p.1) (view d)
  unfolding get_all_gauges
  all_gauges_read d =
      returned-read view (list_gauges db) (λ m v. (k : String) → get m k ≡ v.gauges k)
        (λ t.
          let (rows, same) = laws.gauges_listed t in
          listed view (view t).gauges _ _
            (λ k. sym ((listed-unchanged view (view t).gauges (view t) _ same).gauges k)) rows)
        _ ctx_err cancelled
        (λ t. listed-unchanged view (view t).gauges (view t) _ (laws.gauges_listed t).1)
        (λ m v w same h k. h k ∙ same.gauges k) "get all gauges" (empty, d)

  -- If no reply of the database is lost, the PostgreSQL store implements the contract of a
  -- repository up to failure: a write that returns nil has the effect and the value of the contract
  -- exactly once, whatever attempts failed before; a write that fails has no effect, a batch as a
  -- whole; a read changes nothing and returns what is there if it returns anything.
  pub postgres_repository-ImplementsOrFails :
      ImplementsOrFails (postgres_repository db is_connection_exception ctx_err cancelled) view
  postgres_repository-ImplementsOrFails = record {
    counter_saved = counter_saved;
    gauge_saved = gauge_saved;
    batch_saved = batch_saved;
    counter_read = counter_read;
    gauge_read = gauge_read;
    all_counters_read = all_counters_read;
    all_gauges_read = all_gauges_read;
  }
