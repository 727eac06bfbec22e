-- ===== src/Handler/Value.antt =====
-- internal/handler/value/value.go: POST /value, the metric that a JSON body asks for.
use rtmetrics.Base.{ℕ, Option, none, some, List, [], ◌∷◌, not, if◌then◌else◌, ◌==◌}
use rtmetrics.Model.{Float64, Metrics, counter}
use rtmetrics.Repository.{Result, ok, err}
use rtmetrics.Service.{MetricsService}
use rtmetrics.Http.{Request, Act, set_header, write_header, write, contains, error}
use rtmetrics.Api.{World, Formats, is_unknown}

module _ {S : Type 0} (svc : MetricsService S) (f : Formats) where
  -- The answer is encoded before anything is written.
  unfoldable pub reply : Metrics → List Act
  reply req = elim (f.encode_metrics req) [
    | none ↦ error "Internal Server Error" 500
    | some b ↦
        set_header "Content-Type" "application/json; charset=utf-8"
        ∷ write_header 200
        ∷ write b
        ∷ []
  ]

  -- req.Delta = &value: the other fields of the request are sent back.
  unfoldable pub counter_read : Metrics → World S → Result ℕ × S → List Act × World S
  unfolding reply
  counter_read req w (err e, s) = (error "Counter not found" 404, record w { store = s })
  counter_read req w (ok v, s) = (reply (record req { delta = some v }), record w { store = s })

  unfoldable pub gauge_read : Metrics → World S → Result Float64 × S → List Act × World S
  unfolding reply
  gauge_read req w (err e, s) = (error "Gauge not found" 404, record w { store = s })
  gauge_read req w (ok v, s) = (reply (record req { value = some v }), record w { store = s })

  -- With the decoded body.
  unfoldable pub read_metric : Option Metrics → World S → List Act × World S
  unfolding counter_read gauge_read
  read_metric none w = (write_header 400 ∷ [], w)
  read_metric (some req) w =
      if is_unknown req.mtype
      then (error "Invalid metric type. Must be 'gauge' or 'counter'" 400, w)
      else if req.mtype == counter
      then counter_read req w (svc.get_counter req.id w.store)
      else gauge_read req w (svc.get_gauge req.id w.store)

  -- New
  unfoldable pub value : Request → World S → List Act × World S
  unfolding read_metric
  value r w =
      if not (contains (r.header "Content-Type") "application/json")
      then (error "Content-Type must be application/json" 415, w)
      else read_metric (f.decode_metrics r.body) w
