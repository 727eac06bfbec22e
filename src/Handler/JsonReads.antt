-- ===== src/Handler/JsonReads.antt =====
-- POST /value with JSON (internal/handler/value/value.go) over any repository that implements its
-- contract.
use rtmetrics.Base.{ℕ, ◌≡◌, refl, true, Option, none, some, Bytes}
use rtmetrics.Model.{Float64, Metrics, counter, gauge}
use rtmetrics.Repository.{Result, ok, err, MetricsRepository}
use rtmetrics.Repository.Contract.{View, SameView, Implements, Found, FoundGauge}
use rtmetrics.Service
use rtmetrics.Http.{Request, respond, contains}
use rtmetrics.Api.{World, Formats}
use rtmetrics.Handler.Value
use rtmetrics.Handler.Value.{value}

-- 404 where the metric is missing; else the JSON of the answer, or 500.
abbrev pub IsAnswer : Option (Option Bytes) → ℕ → Bytes → Type 0
IsAnswer none status body = status ≡ 404
IsAnswer (some none) status body = status ≡ 500
IsAnswer (some (some b)) status body = (status ≡ 200) × (body ≡ b)

-- What is asked of JSON: the request with the value that is stored.
abbrev pub with_delta : Formats → Metrics → Option ℕ → Option (Option Bytes)
with_delta f req none = none
with_delta f req (some v) = some (f.encode_metrics (record req { delta = some v }))

abbrev pub with_value : Formats → Metrics → Option Float64 → Option (Option Bytes)
with_value f req none = none
with_value f req (some v) = some (f.encode_metrics (record req { value = some v }))

module _ {S : Type 0} {repo : MetricsRepository S} {view : S → View} (imp : Implements repo view)
    (f : Formats) (r : Request) where
  reply-IsAnswer :
      (m : Metrics) (o : Option Bytes)
      → f.encode_metrics m ≡ o
      → IsAnswer
          (some o)
          (respond (Value.reply (Service.new repo) f m)).status
          (respond (Value.reply (Service.new repo) f m)).body
  unfolding Value.reply respond
  reply-IsAnswer m none e = rw (e, Value.reply) refl
  reply-IsAnswer m (some b) e = rw (e, Value.reply) (refl, refl)

  counter_read-IsAnswer :
      (req : Metrics) (w : World S) (o : Option ℕ) (p : Result ℕ × S)
      → Found o p.0
      → IsAnswer
          (with_delta f req o)
          (respond (Value.counter_read (Service.new repo) f req w p).0).status
          (respond (Value.counter_read (Service.new repo) f req w p).0).body
        × ((Value.counter_read (Service.new repo) f req w p).1.store ≡ p.1)
  unfolding Value.counter_read respond
  counter_read-IsAnswer req w none (ok x, s) (e, h) = cc
  counter_read-IsAnswer req w none (err x, s) h = (refl, refl)
  counter_read-IsAnswer req w (some v) (ok x, s) h =
      let same : x ≡ v = cc in rw same (reply-IsAnswer (record req { delta = some v }) _ refl, refl)
  counter_read-IsAnswer req w (some v) (err x, s) h = cc

  gauge_read-IsAnswer :
      (req : Metrics) (w : World S) (o : Option Float64) (p : Result Float64 × S)
      → FoundGauge o p.0
      → IsAnswer
          (with_value f req o)
          (respond (Value.gauge_read (Service.new repo) f req w p).0).status
          (respond (Value.gauge_read (Service.new repo) f req w p).0).body
        × ((Value.gauge_read (Service.new repo) f req w p).1.store ≡ p.1)
  unfolding Value.gauge_read respond
  gauge_read-IsAnswer req w none (ok x, s) (e, h) = cc
  gauge_read-IsAnswer req w none (err x, s) h = (refl, refl)
  gauge_read-IsAnswer req w (some v) (ok x, s) h =
      let same : x ≡ v = cc in rw same (reply-IsAnswer (record req { value = some v }) _ refl, refl)
  gauge_read-IsAnswer req w (some v) (err x, s) h = cc

  value-counter_read :
      (w : World S) (req : Metrics)
      → contains (r.header "Content-Type") "application/json" ≡ true
      → f.decode_metrics r.body ≡ some req
      → req.mtype ≡ counter
      → value (Service.new repo) f r w
        ≡ Value.counter_read (Service.new repo) f req w (repo.get_counter req.id w.store)
  unfolding value
  value-counter_read w req json decoded kind =
      rw (json, value) (rw (decoded, Value.read_metric) (rw kind refl))

  value-gauge_read :
      (w : World S) (req : Metrics)
      → contains (r.header "Content-Type") "application/json" ≡ true
      → f.decode_metrics r.body ≡ some req
      → req.mtype ≡ gauge
      → value (Service.new repo) f r w
        ≡ Value.gauge_read (Service.new repo) f req w (repo.get_gauge req.id w.store)
  unfolding value
  value-gauge_read w req json decoded kind =
      rw (json, value) (rw (decoded, Value.read_metric) (rw kind refl))

  -- A JSON query for a counter answers 404 if the store has none of that name, and else 200 with the
  -- request's metric in JSON, its delta the stored value, or 500 if JSON has no form for it; the store
  -- keeps its content. (The content type is JSON, and the body decodes to a metric of the type
  -- counter.)
  pub value-counter :
      (w : World S) (req : Metrics)
      → contains (r.header "Content-Type") "application/json" ≡ true
      → f.decode_metrics r.body ≡ some req
      → req.mtype ≡ counter
      → IsAnswer
          (with_delta f req ((view w.store).counters req.id))
          (respond (value (Service.new repo) f r w).0).status
          (respond (value (Service.new repo) f r w).0).body
        × SameView (view (value (Service.new repo) f r w).1.store) (view w.store)
  value-counter w req json decoded kind =
      let (found, kept) = imp.counter_read req.id w.store in
      let (answer, store) = counter_read-IsAnswer req w _ (repo.get_counter req.id w.store) found in
      rw (value-counter_read w req json decoded kind) (answer, rw store kept)

  -- A JSON query for a gauge answers 404 if the store has none of that name, and else 200 with the
  -- request's metric in JSON, its value the stored one, or 500 if JSON has no form for it; the store
  -- keeps its content. (The content type is JSON, and the body decodes to a metric of the type gauge.)
  pub value-gauge :
      (w : World S) (req : Metrics)
      → contains (r.header "Content-Type") "application/json" ≡ true
      → f.decode_metrics r.body ≡ some req
      → req.mtype ≡ gauge
      → IsAnswer
          (with_value f req ((view w.store).gauges req.id))
          (respond (value (Service.new repo) f r w).0).status
          (respond (value (Service.new repo) f r w).0).body
        × SameView (view (value (Service.new repo) f r w).1.store) (view w.store)
  value-gauge w req json decoded kind =
      let (found, kept) = imp.gauge_read req.id w.store in
      let (answer, store) = gauge_read-IsAnswer req w _ (repo.get_gauge req.id w.store) found in
      rw (value-gauge_read w req json decoded kind) (answer, rw store kept)
