-- ===== src/Repository/Fallible.antt =====
-- A store whose calls can fail (internal/repository/metrics_repository.go): what it owes where they
-- do not, and where they do.
use rtmetrics.Base.{ℕ, String, Bool, true, false, ◌≡◌, ◌⊎◌, inl, inr, some, List, or_else}
use rtmetrics.Base.Int64.{add64}
use rtmetrics.Base.GoMap.{get}
use rtmetrics.Model.{Float64, Metrics}
use rtmetrics.Repository.{Result, ok, err, MetricsRepository}
use rtmetrics.Repository.Contract.{
  View, SameView, SameView-trans, add_counter, set_gauge, apply_batch,
}

pub SameView-sym : {a b : View} → SameView a b → SameView b a
SameView-sym h = record { counters = λ k. cc (h.counters k); gauges = λ k. cc (h.gauges k) }

-- A write that failed has had no effect, or, where replies can be lost, its whole effect.
abbrev pub Failed : Bool → View → View → View → Type 0
Failed false before after target = SameView after before
Failed true before after target = SameView after before ⊎ SameView after target

-- A write that returns has taken effect, and returned `x`.
abbrev pub Written : {A : Type 0} → Bool → A → View → View → View → Result A → Type 0
Written lossy x before after target (ok a) = (a ≡ x) × SameView after target
Written lossy x before after target (err e) = Failed lossy before after target

-- The views that a write is about, replaced by the same ones.
pub Written-same :
    {A : Type 0} (lossy : Bool) (x : A) {b b' a a' t t' : View}
    → SameView b b'
    → SameView a' a
    → SameView t t'
    → (r : Result A) → Written lossy x b a t r
    → Written lossy x b' a' t' r
Written-same lossy x hb ha ht (ok v) (same, h) = (same, SameView-trans (SameView-trans ha h) ht)
Written-same false x hb ha ht (err e) h = SameView-trans (SameView-trans ha h) hb
Written-same true x hb ha ht (err e) (inl h) = inl (SameView-trans (SameView-trans ha h) hb)
Written-same true x hb ha ht (err e) (inr h) = inr (SameView-trans (SameView-trans ha h) ht)

pub not_written : (lossy : Bool) {b a : View} (t : View) → SameView a b → Failed lossy b a t
not_written false t h = h
not_written true t h = inl h

-- What is known of a value that was returned.
abbrev pub IfOk : {A : Type 0} → (A → Type 0) → Result A → Type 0
IfOk P (ok a) = P a
IfOk P (err e) = Unit

-- A write that returns nil has the effect and the value of the contract, a write that fails has no
-- effect, and a read changes nothing and returns what is there if it returns anything.
pub record ImplementsOrFails {S : Type 0} (repo : MetricsRepository S) (view : S → View)
    : Type 0 where
  pub counter_saved :
      (name : String) (delta : ℕ) (s : S)
      → let p = repo.save_counter name delta s in
        Written false
          (add64 (or_else ((view s).counters name) 0) delta)
          (view s)
          (view p.1)
          (add_counter name delta (view s))
          p.0
  pub gauge_saved :
      (name : String) (value : Float64) (s : S)
      → let p = repo.save_gauge name value s in
        Written false value (view s) (view p.1) (set_gauge name value (view s)) p.0
  pub batch_saved :
      (ms : List Metrics) (s : S)
      → let p = repo.save_batch ms s in
        Written false tt (view s) (view p.1) (apply_batch ms (view s)) p.0
  pub counter_read :
      (name : String) (s : S)
      → let p = repo.get_counter name s in
        IfOk (λ v. (view s).counters name ≡ some v) p.0 × SameView (view p.1) (view s)
  pub gauge_read :
      (name : String) (s : S)
      → let p = repo.get_gauge name s in
        IfOk (λ v. (view s).gauges name ≡ some v) p.0 × SameView (view p.1) (view s)
  pub all_counters_read :
      (s : S)
      → let p = repo.get_all_counters s in
        IfOk (λ m. (k : String) → get m k ≡ (view s).counters k) p.0 × SameView (view p.1) (view s)
  pub all_gauges_read :
      (s : S)
      → let p = repo.get_all_gauges s in
        IfOk (λ m. (k : String) → get m k ≡ (view s).gauges k) p.0 × SameView (view p.1) (view s)
