-- ===== src/Handler/Update.antt =====
-- internal/handler/update/update.go: POST /update, one metric in JSON.
use rtmetrics.Base.{ℕ, String, Option, none, some, List, [], ◌∷◌, not, if◌then◌else◌, ◌==◌}
use rtmetrics.Model.{Float64, Metrics, counter, gauge}
use rtmetrics.Repository.{Result, ok, err}
use rtmetrics.Service.{MetricsService}
use rtmetrics.Http.{Request, Act, set_header, write_header, write, contains, error}
use rtmetrics.Api.{World, Formats, audited, is_unknown}

module _ {S : Type 0} (svc : MetricsService S) (f : Formats) where
  -- The end of the handler: the audit event, and the answer in JSON.
  unfoldable pub reply : Request → String → Metrics → World S → List Act × World S
  reply r id resp w = (
    set_header "Content-Type" "application/json; charset=utf-8" ∷ (elim (f.encode_metrics resp) [
      | none ↦ error "Internal Server Error" 500
      | some b ↦ write b ∷ []
    ]),
    audited f r (id ∷ []) w,
  )

  unfoldable pub counter_saved : Request → String → World S → Result ℕ × S → List Act × World S
  unfolding reply
  counter_saved r id w (err e, s) = (error "Failed to save counter" 500, record w { store = s })
  counter_saved r id w (ok v, s) =
      reply r id (record { id = id; mtype = counter; delta = some v; value = none; hash = "" })
        (record w { store = s })

  unfoldable pub gauge_saved : Request → String → World S → Result Float64 × S → List Act × World S
  unfolding reply
  gauge_saved r id w (err e, s) = (error "Failed to save gauge" 500, record w { store = s })
  gauge_saved r id w (ok v, s) =
      reply r id (record { id = id; mtype = gauge; delta = none; value = some v; hash = "" })
        (record w { store = s })

  unfoldable pub update_counter : Request → String → Option ℕ → World S → List Act × World S
  unfolding counter_saved
  update_counter r id none w = (error "Invalid counter value" 400, w)
  update_counter r id (some delta) w = counter_saved r id w (svc.update_counter id delta w.store)

  unfoldable pub update_gauge : Request → String → Option Float64 → World S → List Act × World S
  unfolding gauge_saved
  update_gauge r id none w = (error "Invalid gauge value" 400, w)
  update_gauge r id (some value) w = gauge_saved r id w (svc.update_gauge id value w.store)

  -- With the decoded body.
  unfoldable pub update_metric : Request → Metrics → World S → List Act × World S
  unfolding update_counter update_gauge
  update_metric r req w =
      if is_unknown req.mtype
      then (error "Invalid metric type. Must be 'gauge' or 'counter'" 400, w)
      else if req.mtype == counter
      then update_counter r req.id req.delta w
      else update_gauge r req.id req.value w

  abbrev pub or_bad_request {ℓ} :
      {A : Type ℓ} → Option A → (A → World S → List Act × World S) → World S → List Act × World S
  or_bad_request none k w = (write_header 400 ∷ [], w)
  or_bad_request (some a) k w = k a w

  -- New, NewWithAudit
  unfoldable pub update : Request → World S → List Act × World S
  unfolding update_metric
  update r w =
      if not (contains (r.header "Content-Type") "application/json")
      then (error "Content-Type must be application/json" 415, w)
      else or_bad_request (f.decode_metrics r.body) (λ req. update_metric r req) w
