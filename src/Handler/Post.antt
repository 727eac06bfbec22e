-- ===== src/Handler/Post.antt =====
-- internal/handler/post/post.go: POST /update/{mtype}/{name}/{value}.
use rtmetrics.Base.{ℕ, String, Option, none, some, List, [], ◌∷◌, Bytes, codes, if◌then◌else◌, ◌==◌}
use rtmetrics.Base.Int64.{parse_int}
use rtmetrics.Base.Decimal.{format_int}
use rtmetrics.Model.{Float64, counter}
use rtmetrics.Repository.{Result, ok, err}
use rtmetrics.Service.{MetricsService}
use rtmetrics.Http.{Request, Act, set_header, write_header, write, error}
use rtmetrics.Api.{World, Formats, audited, is_unknown}

module _ {S : Type 0} (svc : MetricsService S) (f : Formats) where
  unfoldable pub reply : Request → String → Bytes → World S → List Act × World S
  reply r name resp w = (
    set_header "Content-Type" "text/plain; charset=utf-8" ∷ write_header 200 ∷ write resp ∷ [],
    audited f r (name ∷ []) w,
  )

  unfoldable pub counter_saved : Request → String → World S → Result ℕ × S → List Act × World S
  unfolding reply
  counter_saved r name w (err e, s) = (error "Failed to save counter" 500, record w { store = s })
  counter_saved r name w (ok v, s) = reply r name (format_int v) (record w { store = s })

  unfoldable pub gauge_saved : Request → String → World S → Result Float64 × S → List Act × World S
  unfolding reply
  gauge_saved r name w (err e, s) = (error "Failed to save gauge" 500, record w { store = s })
  gauge_saved r name w (ok v, s) = reply r name (f.format_float v) (record w { store = s })

  unfoldable pub post_counter : Request → String → Option ℕ → World S → List Act × World S
  unfolding counter_saved
  post_counter r name none w = (error "Invalid value parameter" 400, w)
  post_counter r name (some value) w =
      counter_saved r name w (svc.update_counter name value w.store)

  unfoldable pub post_gauge : Request → String → Option Float64 → World S → List Act × World S
  unfolding gauge_saved
  post_gauge r name none w = (error "Invalid gauge parameter" 400, w)
  post_gauge r name (some value) w = gauge_saved r name w (svc.update_gauge name value w.store)

  -- New, NewWithAudit
  unfoldable pub post : Request → World S → List Act × World S
  unfolding post_counter post_gauge
  post r w =
      if is_unknown (r.param "mtype")
      then (error "Invalid metric type. Must be 'gauge' or 'counter'" 400, w)
      else if r.param "mtype" == counter
      then post_counter r (r.param "name") (parse_int (codes (r.param "value"))) w
      else post_gauge r (r.param "name") (f.parse_float (codes (r.param "value"))) w
