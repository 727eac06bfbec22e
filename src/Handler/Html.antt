-- ===== src/Handler/Html.antt =====
-- internal/handler/html/index.go: GET /, the dashboard. The template is an argument: html/template
-- makes the page of the data, or fails after a part of it.
use rtmetrics.Base.{ℕ, List, [], ◌∷◌, Bytes}
use rtmetrics.Base.GoMap.{GoMap, empty}
use rtmetrics.Model.{Float64}
use rtmetrics.Repository.{Result, ok, err}
use rtmetrics.Service.{MetricsService}
use rtmetrics.Http.{Request, Act, set_header, write, error}
use rtmetrics.Api.{World}

pub record PageData : Type 0 where
  pub counters : GoMap ℕ
  pub gauges : GoMap Float64

-- t.Execute: what it has written, and whether it failed.
pub data Page : Type 0 where
  whole : Bytes → Page
  broken : Bytes → Page

-- An error is logged, and the map is empty.
abbrev pub or_empty {ℓ} : {V : Type ℓ} → Result (GoMap V) → GoMap V
or_empty (ok m) = m
or_empty (err e) = empty

unfoldable pub page_acts : Page → List Act
page_acts (whole b) = write b ∷ []
page_acts (broken b) = write b ∷ error "Internal Server Error" 500

module _ {S : Type 0} (svc : MetricsService S) (execute : PageData → Page) where
  -- New
  unfoldable pub html : Request → World S → List Act × World S
  unfolding page_acts
  html r w =
      let (counters, s) = svc.get_all_counters w.store in
      let (gauges, s') = svc.get_all_gauges s in
      (
        set_header "Content-Type" "text/html; charset=utf-8"
            ∷ page_acts
                (execute (record { counters = or_empty counters; gauges = or_empty gauges })),
        record w { store = s' },
      )
