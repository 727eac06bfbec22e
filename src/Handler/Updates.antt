-- ===== src/Handler/Updates.antt =====
-- internal/handler/updates/updates.go: POST /updates, a batch of metrics in JSON.
use rtmetrics.Base.{String, Option, none, some, List, [], ◌∷◌, not, if◌then◌else◌, ◌==◌}
use rtmetrics.Model.{Metrics, counter, gauge}
use rtmetrics.Repository.{Result, ok, err}
use rtmetrics.Service.{MetricsService}
use rtmetrics.Http.{Request, Act, set_header, write_header, contains, error}
use rtmetrics.Api.{World, Formats, audited}

-- What is wrong with one metric of a batch, as the message of the answer.
unfoldable pub invalid : Metrics → Option String
invalid m =
    if m.mtype == counter
    then elim m.delta [ none ↦ some "Invalid counter value" | some _ ↦ none ]
    else if m.mtype == gauge
    then elim m.value [ none ↦ some "Invalid gauge value" | some _ ↦ none ]
    else some "Invalid metric type. Must be 'gauge' or 'counter'"

-- The validation loop: the first invalid metric decides.
unfoldable pub first_invalid : List Metrics → Option String
unfolding invalid
first_invalid [] = none
first_invalid (m ∷ ms) = elim (invalid m) [ some msg ↦ some msg | none ↦ first_invalid ms ]

-- names
abbrev pub ids : List Metrics → List String
ids [] = []
ids (m ∷ ms) = m.id ∷ ids ms

module _ {S : Type 0} (svc : MetricsService S) (f : Formats) where
  unfoldable pub batch_saved :
      Request → List Metrics → World S → Result (Unit {0}) × S → List Act × World S
  batch_saved r batch w (err e, s) = (error "Failed to save metrics" 500, record w { store = s })
  batch_saved r batch w (ok _, s) = (
    set_header "Content-Type" "application/json; charset=utf-8" ∷ write_header 200 ∷ [],
    audited f r (ids batch) (record w { store = s }),
  )

  unfoldable pub update_valid :
      Request → List Metrics → Option String → World S → List Act × World S
  unfolding batch_saved
  update_valid r batch (some msg) w = (error msg 400, w)
  update_valid r batch none w = batch_saved r batch w (svc.update_batch batch w.store)

  -- With the decoded body.
  unfoldable pub update_batch : Request → Option (List Metrics) → World S → List Act × World S
  unfolding update_valid first_invalid
  update_batch r none w = (write_header 400 ∷ [], w)
  update_batch r (some []) w = (write_header 200 ∷ [], w)
  update_batch r (some (m ∷ ms)) w = update_valid r (m ∷ ms) (first_invalid (m ∷ ms)) w

  -- New, NewWithAudit
  unfoldable pub updates : Request → World S → List Act × World S
  unfolding update_batch
  updates r w =
      if not (contains (r.header "Content-Type") "application/json")
      then (error "Content-Type must be application/json" 415, w)
      else update_batch r (f.decode_batch r.body) w
