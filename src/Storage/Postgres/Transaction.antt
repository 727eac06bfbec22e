-- ===== src/Storage/Postgres/Transaction.antt =====
-- saveBatch of internal/storage/postgres/postgres.go, one attempt: a transaction.
use rtmetrics.Base.{ℕ, String, Bool, inl, inr, Option, none, some, List, [], ◌∷◌, Bool-cases, ◌==◌}
use rtmetrics.Model.{Float64, Metrics, counter, gauge}
use rtmetrics.Repository.{Result, ok, err}
use rtmetrics.Repository.Contract.{
  View, SameView, SameView-refl, SameView-trans, apply_delta, apply_value, apply_metric,
  apply_batch, SameView-apply_batch,
}
use rtmetrics.Storage.Postgres.{
  exec_delta, exec_value, exec_metric, exec_metrics, in_transaction, save_batch_once,
}
use rtmetrics.Storage.Postgres.Driver.{Statement, SqlDb, and_then, wrapped, deferred}
use rtmetrics.Repository.Fallible.{Written, Written-same, not_written}
use rtmetrics.Storage.Postgres.Behaviour.{Returned, Behaves}

module _ {D : Type 0} (lossy : Bool) (db : SqlDb D) (view pending : D → View)
    (laws : Behaves lossy db view pending) where
  -- A step of the transaction: the committed rows stay, and on success the pending ones are `target`.
  abbrev Stepped : {A : Type 0} → View → View → Result A × D → Type 0
  Stepped base target p = SameView (view p.1) base × Returned (pending p.1) target p.0

  wrapped-Stepped :
      {A : Type 0} (msg : String) (base target : View) (p : Result A × D)
      → Stepped base target p
      → Stepped base target (wrapped msg p)
  wrapped-Stepped msg base target (ok a, d) h = h
  wrapped-Stepped msg base target (err e, d) h = h

  and_then-Stepped :
      {A B : Type 0} (base mid target : View) (p : Result A × D) (f : A → D → Result B × D)
      → Stepped base mid p
      → ((a : A) (d : D)
          → SameView (view d) base
          → SameView (pending d) mid
          → Stepped base target (f a d))
      → Stepped base target (and_then p f)
  and_then-Stepped base mid target (ok a, d) f (same, left) next = next a d same left
  and_then-Stepped base mid target (err e, d) f (same, left) next = (same, tt)

  exec_delta-Stepped :
      (id : String) (delta : Option ℕ) (d : D)
      → Stepped (view d) (apply_delta id delta (pending d)) (exec_delta db id delta d)
  exec_delta-Stepped id none d = (SameView-refl (view d), SameView-refl (pending d))
  exec_delta-Stepped id (some delta) d = wrapped-Stepped _ _ _ _ (laws.counter_executed id delta d)

  exec_value-Stepped :
      (id : String) (value : Option Float64) (d : D)
      → Stepped (view d) (apply_value id value (pending d)) (exec_value db id value d)
  exec_value-Stepped id none d = (SameView-refl (view d), SameView-refl (pending d))
  exec_value-Stepped id (some value) d = wrapped-Stepped _ _ _ _ (laws.gauge_executed id value d)

  exec_metric-Stepped :
      (m : Metrics) (d : D) → Stepped (view d) (apply_metric m (pending d)) (exec_metric db m d)
  unfolding exec_metric
  exec_metric-Stepped m d = elim (Bool-cases (m.mtype == counter)) [
    | inl is_counter ↦ rw (is_counter, exec_metric) (exec_delta-Stepped m.id m.delta d)
    | inr no_counter ↦ elim (Bool-cases (m.mtype == gauge)) [
      | inl is_gauge ↦ rw (no_counter, is_gauge, exec_metric) (exec_value-Stepped m.id m.value d)
      | inr no_gauge ↦
          rw (no_counter, no_gauge, exec_metric) (SameView-refl (view d), SameView-refl (pending d))
    ]
  ]

  Stepped-same :
      {A : Type 0} {base base' target target' : View} (p : Result A × D)
      → SameView base base'
      → SameView target target'
      → Stepped base target p
      → Stepped base' target' p
  Stepped-same (ok a, d) hb ht (same, left) = (SameView-trans same hb, SameView-trans left ht)
  Stepped-same (err e, d) hb ht (same, left) = (SameView-trans same hb, tt)

  exec_metrics-Stepped :
      (ms : List Metrics) (d : D)
      → Stepped (view d) (apply_batch ms (pending d)) (exec_metrics db ms d)
  unfolding exec_metrics
  exec_metrics-Stepped [] d = (SameView-refl (view d), SameView-refl (pending d))
  exec_metrics-Stepped (m ∷ ms) d =
      and_then-Stepped (view d) (apply_metric m (pending d))
        (apply_batch ms (apply_metric m (pending d))) _ _ (exec_metric-Stepped m d)
        (λ a t same left.
          Stepped-same _ same (SameView-apply_batch ms left) (exec_metrics-Stepped ms t))

  -- What ends in a commit.
  abbrev Ended : View → View → Result (Unit {0}) × D → Type 0
  Ended base target p = Written lossy tt base (view p.1) target p.0

  and_then-Ended :
      {A : Type 0} (base mid target : View) (p : Result A × D) (f : A → D → Result (Unit {0}) × D)
      → Stepped base mid p
      → ((a : A) (d : D)
          → SameView (view d) base
          → SameView (pending d) mid
          → Ended base target (f a d))
      → Ended base target (and_then p f)
  and_then-Ended base mid target (ok a, d) f (same, left) next = next a d same left
  and_then-Ended base mid target (err e, d) f (same, left) next = not_written lossy target same

  wrapped-Ended :
      (msg : String) (base target : View) (p : Result (Unit {0}) × D)
      → Ended base target p
      → Ended base target (wrapped msg p)
  wrapped-Ended msg base target (ok a, d) h = h
  wrapped-Ended msg base target (err e, d) h = h

  rolled_back-Ended :
      (base target : View) (p : Result (Unit {0}) × D)
      → Ended base target p
      → Ended base target (deferred db.rollback p)
  rolled_back-Ended base target (r, d) h =
      Written-same lossy tt (SameView-refl base) (laws.rolled_back d) (SameView-refl target) r h

  prepared-Stepped :
      (stmt : Statement) (msg : String) (d : D)
      → Stepped (view d) (pending d) (wrapped msg (db.prepare stmt d))
  prepared-Stepped stmt msg d = wrapped-Stepped msg _ _ _ (left_by _ (laws.prepared stmt d))
    where
      left_by :
          (p : Result (Unit {0}) × D)
          → SameView (view p.1) (view d) × SameView (pending p.1) (pending d)
          → Stepped (view d) (pending d) p
      left_by (ok a, t) h = h
      left_by (err e, t) h = (h.0, tt)

  commit-Ended :
      (base target : View) (d : D)
      → SameView (view d) base
      → SameView (pending d) target
      → Ended base target (wrapped "commit tx" (db.commit d))
  commit-Ended base target d same left =
      wrapped-Ended _ base target (db.commit d)
        (Written-same lossy tt same (SameView-refl _) left (db.commit d).0 (laws.committed d))

  in_transaction-Ended :
      (ms : List Metrics) (base : View) (d : D)
      → SameView (view d) base
      → SameView (pending d) base
      → Ended base (apply_batch ms base) (in_transaction db ms d)
  unfolding in_transaction
  in_transaction-Ended ms base d same left =
      and_then-Ended base base _ _ _ (Stepped-same _ same left (prepared-Stepped _ _ d))
        (λ a d' same' left'.
          and_then-Ended base base _ _ _ (Stepped-same _ same' left' (prepared-Stepped _ _ d'))
            (λ b d'' same'' left''.
              and_then-Ended base (apply_batch ms base) _ _ _
                (Stepped-same _ same'' (SameView-apply_batch ms left'')
                  (exec_metrics-Stepped ms d''))
                (λ c d3. commit-Ended base (apply_batch ms base) d3)))

  -- An attempt stores the whole batch or nothing: it has stored it where it returns nil, and not
  -- where it fails, unless the reply to the commit was lost.
  pub save_batch_once-Written :
      (ms : List Metrics) (d : D)
      → Written lossy tt
          (view d)
          (view (save_batch_once db ms d).1)
          (apply_batch ms (view d))
          (save_batch_once db ms d).0
  unfolding save_batch_once
  save_batch_once-Written ms d =
      and_then-Ended (view d) (view d) (apply_batch ms (view d)) _ _
        (wrapped-Stepped "begin tx" _ _ _ (laws.begun d))
        (λ a d' same left.
          rolled_back-Ended (view d) (apply_batch ms (view d)) _
            (in_transaction-Ended ms (view d) d' same left))
