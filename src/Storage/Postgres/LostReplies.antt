-- ===== src/Storage/Postgres/LostReplies.antt =====
-- What a lost reply of the database can do to the writes of internal/storage/postgres/postgres.go: an
-- attempt that failed may have taken effect, and retry.Do makes the next one.
use rtmetrics.Base.{ℕ, String, Bool, true, Option, none, some, List, [], ◌∷◌}
use rtmetrics.Model.{Metrics, new_counter}
use rtmetrics.Repository.{Error, Result, ok, err}
use rtmetrics.Repository.Contract.{View, apply_batch}
use rtmetrics.Repository.Fallible.{Written}
use rtmetrics.Storage.Postgres.{
  assigned, returned, failure, outcome, save_counter, save_batch, save_batch_once,
}
use rtmetrics.Storage.Postgres.Driver.{SqlDb}
use rtmetrics.Storage.Postgres.Behaviour.{Behaves}
use rtmetrics.Storage.Postgres.Retried.{Attempted, Repeated, do_retry-Repeated}
use rtmetrics.Storage.Postgres.Transaction.{save_batch_once-Written}

abbrev pub error_of : {A : Type 0} → Result A → Option Error
error_of (ok a) = none
error_of (err e) = some e

module _ {D : Type 0} (view : D → View) (ms : List Metrics) where
  assigned-Attempted :
      {A : Type 0} (old x : A) (before : View) (p : Result A × D)
      → Written true x before (view p.1) (apply_batch ms before) p.0
      → Attempted ms before (view (assigned old p).1.1) (assigned old p).0
  assigned-Attempted old x before (ok a, d) h = h.1
  assigned-Attempted old x before (err e, d) h = h

  failure-Attempted :
      (before : View) (p : Result (Unit {0}) × D)
      → Written true tt before (view p.1) (apply_batch ms before) p.0
      → Attempted ms before (view (failure p).1) (failure p).0
  failure-Attempted before (ok u, d) h = h.1
  failure-Attempted before (err e, d) h = h

  returned-Repeated :
      {A : Type 0} (msg : String) (n : ℕ) (before : View) (q : Option Error × (A × D))
      → Repeated n ms before (view q.1.1) q.0
      → Repeated n ms before (view (returned msg q).1) (error_of (returned msg q).0)
  returned-Repeated msg n before (none, (a, d)) h = h
  returned-Repeated msg n before (some e, (a, d)) h = h

  outcome-Repeated :
      (n : ℕ) (before : View) (q : Option Error × D)
      → Repeated n ms before (view q.1) q.0
      → Repeated n ms before (view (outcome q).1) (error_of (outcome q).0)
  outcome-Repeated n before (none, d) h = h
  outcome-Repeated n before (some e, d) h = h

module _ {D : Type 0} (db : SqlDb D) (view pending : D → View) (laws : Behaves true db view pending)
    (is_connection_exception : String → Bool) (ctx_err : Option Error) (cancelled : ℕ → Bool) where
  -- Where replies of the database can be lost, SaveCounter adds its increment at most four times,
  -- and at least once if it returns no error; nothing else changes.
  pub save_counter-Repeated :
      (name : String) (delta : ℕ) (d : D)
      → let p = save_counter db is_connection_exception ctx_err cancelled name delta d in
        Repeated 4 (new_counter name delta ∷ []) (view d) (view p.1) (error_of p.0)
  unfolding save_counter new_counter
  save_counter-Repeated name delta d = returned-Repeated view _ "save counter" 4 (view d) _ (
      do_retry-Repeated _ _ (λ s. view s.1) _
        (λ s.
          assigned-Attempted view (new_counter name delta ∷ []) s.0 _ (view s.1) _
            (laws.counter_upserted name delta s.1))
        ctx_err cancelled (0, d))

  -- Where replies of the database can be lost, SaveBatch applies the whole batch at most four times,
  -- and at least once if it returns nil; it never applies a part of it.
  pub save_batch-Repeated :
      (ms : List Metrics) (d : D)
      → let p = save_batch db is_connection_exception ctx_err cancelled ms d in
        Repeated 4 ms (view d) (view p.1) (error_of p.0)
  unfolding save_batch
  save_batch-Repeated ms d = outcome-Repeated view ms 4 (view d) _ (
      do_retry-Repeated _ (λ t. failure (save_batch_once db ms t)) view ms
        (λ t.
          failure-Attempted view ms (view t) (save_batch_once db ms t)
            (save_batch_once-Written true db view pending laws ms t))
        ctx_err cancelled d)
