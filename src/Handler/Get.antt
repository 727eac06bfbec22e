-- ===== src/Handler/Get.antt =====
-- internal/handler/get/get.go: GET /value/{mtype}/{name}.
use rtmetrics.Base.{ℕ, List, [], ◌∷◌, Bytes, if◌then◌else◌, ◌==◌}
use rtmetrics.Base.Decimal.{format_int}
use rtmetrics.Model.{Float64, counter}
use rtmetrics.Repository.{Result, ok, err}
use rtmetrics.Service.{MetricsService}
use rtmetrics.Http.{Request, Act, set_header, write_header, write, error}
use rtmetrics.Api.{World, Formats, is_unknown}

abbrev pub text_reply : Bytes → List Act
text_reply resp =
    set_header "Content-Type" "text/plain; charset=utf-8" ∷ write_header 200 ∷ write resp ∷ []

module _ {S : Type 0} (svc : MetricsService S) (f : Formats) where
  unfoldable pub counter_read : World S → Result ℕ × S → List Act × World S
  counter_read w (err e, s) = (error "Counter not found" 404, record w { store = s })
  counter_read w (ok v, s) = (text_reply (format_int v), record w { store = s })

  unfoldable pub gauge_read : World S → Result Float64 × S → List Act × World S
  gauge_read w (err e, s) = (error "Gauge not found" 404, record w { store = s })
  gauge_read w (ok v, s) = (text_reply (f.format_float v), record w { store = s })

  -- New
  unfoldable pub get : Request → World S → List Act × World S
  unfolding counter_read gauge_read
  get r w =
      if is_unknown (r.param "mtype")
      then (error "Invalid metric type. Must be 'gauge' or 'counter'" 404, w)
      else if r.param "mtype" == counter
      then counter_read w (svc.get_counter (r.param "name") w.store)
      else gauge_read w (svc.get_gauge (r.param "name") w.store)
