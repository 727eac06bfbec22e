-- ===== src/Storage/Postgres/Equivalence.antt =====
-- The stores of internal/storage/postgres/postgres.go and internal/storage/mem_storage.go against each
-- other.
use rtmetrics.Base.{ℕ, String, refl, Bool, true, false, Option, List, [], ◌∷◌}
use rtmetrics.Base.GoMap.{get-put}
use rtmetrics.Model.{new_counter, new_gauge}
use rtmetrics.Repository.{Error, Result, ok, err, MetricsRepository}
use rtmetrics.Repository.Contract.{
  View, SameView, SameView-trans, add_counter, set_gauge, apply_batch, SameView-apply_batch,
}
use rtmetrics.Repository.Fallible.{Written, ImplementsOrFails, SameView-sym}
use rtmetrics.Storage.{MemStorage, save_gauge, save_batch}
use rtmetrics.Storage.Refinement.{view, save_counter-Contract, save_metrics-Contract}
use rtmetrics.Storage.History.{Op, counter_op, gauge_op, batch_op, step, run}
use rtmetrics.Storage.Postgres.{postgres_repository}
use rtmetrics.Storage.Postgres.Driver.{SqlDb}
use rtmetrics.Storage.Postgres.Behaviour.{Behaves}
use rtmetrics.Storage.Postgres.Refinement.{postgres_repository-ImplementsOrFails}

-- What an operation does to a view.
abbrev apply_op : Op → View → View
apply_op (counter_op name delta) v = add_counter name delta v
apply_op (gauge_op name value) v = set_gauge name value v
apply_op (batch_op ms) v = apply_batch ms v

step-apply_op : (op : Op) (m : MemStorage) → SameView (view (step op m)) (apply_op op (view m))
unfolding step save_gauge save_batch
step-apply_op (counter_op name delta) m = (save_counter-Contract m name delta).1
step-apply_op (gauge_op name value) m = record {
  counters = λ k. refl;
  gauges = λ k. get-put m.gauges name k value;
}
step-apply_op (batch_op ms) m = save_metrics-Contract ms m

SameView-apply_op : (op : Op) {a b : View} → SameView a b → SameView (apply_op op a) (apply_op op b)
unfolding new_counter new_gauge
SameView-apply_op (counter_op name delta) h = SameView-apply_batch (new_counter name delta ∷ []) h
SameView-apply_op (gauge_op name value) h = SameView-apply_batch (new_gauge name value ∷ []) h
SameView-apply_op (batch_op ms) h = SameView-apply_batch ms h

module _ {S : Type 0} (repo : MetricsRepository S) where
  -- Whether a call returned nil, and the state after it.
  abbrev acked : {A : Type 0} → Result A × S → Bool × S
  acked (ok a, s) = (true, s)
  acked (err e, s) = (false, s)

  abbrev call : Op → S → Bool × S
  call (counter_op name delta) s = acked (repo.save_counter name delta s)
  call (gauge_op name value) s = acked (repo.save_gauge name value s)
  call (batch_op ms) s = acked (repo.save_batch ms s)

  -- The state after the calls.
  abbrev pub run_on : List Op → S → S
  run_on [] s = s
  run_on (op ∷ ops) s = run_on ops (call op s).1

  -- `op` where its call returned nil, before the others.
  abbrev if_acked : Bool → Op → List Op → List Op
  if_acked true op ops = op ∷ ops
  if_acked false op ops = ops

  -- The calls that returned nil.
  abbrev pub acknowledged : List Op → S → List Op
  acknowledged [] s = []
  acknowledged (op ∷ ops) s = if_acked (call op s).0 op (acknowledged ops (call op s).1)

  module _ (seen : S → View) (laws : ImplementsOrFails repo seen) where
    abbrev Effect : View → Op → Bool × S → Type 0
    Effect before op (true, s) = SameView (seen s) (apply_op op before)
    Effect before op (false, s) = SameView (seen s) before

    acked-Effect :
        {A : Type 0} (x : A) (before : View) (op : Op) (p : Result A × S)
        → Written false x before (seen p.1) (apply_op op before) p.0
        → Effect before op (acked p)
    acked-Effect x before op (ok a, s) h = h.1
    acked-Effect x before op (err e, s) h = h

    call-Effect : (op : Op) (s : S) → Effect (seen s) op (call op s)
    call-Effect (counter_op name delta) s =
        acked-Effect _ (seen s) (counter_op name delta) _ (laws.counter_saved name delta s)
    call-Effect (gauge_op name value) s =
        acked-Effect _ (seen s) (gauge_op name value) _ (laws.gauge_saved name value s)
    call-Effect (batch_op ms) s = acked-Effect _ (seen s) (batch_op ms) _ (laws.batch_saved ms s)

    run_next :
        (op : Op) (ops : List Op) (s : S) (m : MemStorage) (p : Bool × S)
        → SameView (seen s) (view m)
        → Effect (seen s) op p
        → ((m' : MemStorage)
            → SameView (seen p.1) (view m')
            → SameView (seen (run_on ops p.1)) (view (run (acknowledged ops p.1) m')))
        → SameView (seen (run_on ops p.1)) (view (run (if_acked p.0 op (acknowledged ops p.1)) m))
    unfolding run
    run_next op ops s m (true, t) same effect rest = rest (step op m) (
        SameView-trans effect
          (SameView-trans (SameView-apply_op op same) (SameView-sym (step-apply_op op m))))
    run_next op ops s m (false, t) same effect rest = rest m (SameView-trans effect same)

    run_on-run :
        (ops : List Op) (s : S) (m : MemStorage)
        → SameView (seen s) (view m)
        → SameView (seen (run_on ops s)) (view (run (acknowledged ops s) m))
    unfolding run
    run_on-run [] s m same = same
    run_on-run (op ∷ ops) s m same =
        run_next op ops s m (call op s) same (call-Effect op s) (run_on-run ops (call op s).1)

-- If no reply of the database is lost, then after any calls that write, made on a PostgreSQL store and
-- an in-memory store with the same content, the PostgreSQL store holds what the in-memory store holds
-- after those of the calls that returned nil on PostgreSQL.
pub run_on-run_postgres :
    {D : Type 0} (db : SqlDb D) (seen pending : D → View)
    → Behaves false db seen pending
    → (is_connection_exception : String → Bool) (ctx_err : Option Error) (cancelled : ℕ → Bool)
      (ops : List Op) (d : D) (m : MemStorage)
    → SameView (seen d) (view m)
    → let repo = postgres_repository db is_connection_exception ctx_err cancelled in
      SameView (seen (run_on repo ops d)) (view (run (acknowledged repo ops d) m))
run_on-run_postgres db seen pending laws is_connection_exception ctx_err cancelled ops d m same =
    run_on-run (postgres_repository db is_connection_exception ctx_err cancelled) seen
      (postgres_repository-ImplementsOrFails db seen pending laws is_connection_exception ctx_err
        cancelled)
      ops d m same
