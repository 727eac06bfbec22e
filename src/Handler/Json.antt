-- ===== src/Handler/Json.antt =====
-- POST /update with JSON (internal/handler/update/update.go) over any repository that implements its
-- contract.
use rtmetrics.Base.{ℕ, String, ◌≡◌, refl, ap, ◌∙◌, true, Option, none, some, Bytes, or_else}
use rtmetrics.Base.Int64.{add64}
use rtmetrics.Model.{Float64, Metrics, counter, gauge}
use rtmetrics.Repository.{Result, ok, err, MetricsRepository}
use rtmetrics.Repository.Contract.{View, SameView, Implements, add_counter, set_gauge}
use rtmetrics.Service
use rtmetrics.Http.{Request, respond, contains}
use rtmetrics.Api.{World, Formats}
use rtmetrics.Handler.Update
use rtmetrics.Handler.Update.{update}

-- The metric that the handler answers with.
abbrev pub counter_answer : String → ℕ → Metrics
counter_answer id v = record { id = id; mtype = counter; delta = some v; value = none; hash = "" }

abbrev pub gauge_answer : String → Float64 → Metrics
gauge_answer id v = record { id = id; mtype = gauge; delta = none; value = some v; hash = "" }

-- 200, or 500 where JSON has no form for the answer.
abbrev pub encoded_status : Option Bytes → ℕ
encoded_status none = 500
encoded_status (some b) = 200

module _ {S : Type 0} {repo : MetricsRepository S} {view : S → View} (imp : Implements repo view)
    (f : Formats) (r : Request) where
  reply-status :
      (id : String) (m : Metrics) (w : World S) (o : Option Bytes)
      → f.encode_metrics m ≡ o
      → ((respond (Update.reply (Service.new repo) f r id m w).0).status ≡ encoded_status o)
        × ((Update.reply (Service.new repo) f r id m w).1.store ≡ w.store)
  unfolding Update.reply respond
  reply-status id m w none e = rw e (refl, refl)
  reply-status id m w (some b) e = rw e (refl, refl)

  counter_saved-ok :
      (id : String) (w : World S) (p : Result ℕ × S) (v : ℕ)
      → p.0 ≡ ok v
      → ((respond (Update.counter_saved (Service.new repo) f r id w p).0).status
          ≡ encoded_status (f.encode_metrics (counter_answer id v)))
        × ((Update.counter_saved (Service.new repo) f r id w p).1.store ≡ p.1)
  unfolding Update.counter_saved
  counter_saved-ok id w (ok x, s) v e =
      let same : x ≡ v = cc in
      rw same (reply-status id (counter_answer id v) (record w { store = s }) _ refl)
  counter_saved-ok id w (err x, s) v e = cc

  gauge_saved-ok :
      (id : String) (w : World S) (p : Result Float64 × S) (v : Float64)
      → p.0 ≡ ok v
      → ((respond (Update.gauge_saved (Service.new repo) f r id w p).0).status
          ≡ encoded_status (f.encode_metrics (gauge_answer id v)))
        × ((Update.gauge_saved (Service.new repo) f r id w p).1.store ≡ p.1)
  unfolding Update.gauge_saved
  gauge_saved-ok id w (ok x, s) v e =
      let same : x ≡ v = cc in
      rw same (reply-status id (gauge_answer id v) (record w { store = s }) _ refl)
  gauge_saved-ok id w (err x, s) v e = cc

  update-update_counter :
      (w : World S) (req : Metrics)
      → contains (r.header "Content-Type") "application/json" ≡ true
      → f.decode_metrics r.body ≡ some req
      → req.mtype ≡ counter
      → update (Service.new repo) f r w
        ≡ Update.update_counter (Service.new repo) f r req.id req.delta w
  unfolding update
  update-update_counter w req json decoded kind =
      rw (json, update) (rw decoded (rw (kind, Update.update_metric) refl))

  update-update_gauge :
      (w : World S) (req : Metrics)
      → contains (r.header "Content-Type") "application/json" ≡ true
      → f.decode_metrics r.body ≡ some req
      → req.mtype ≡ gauge
      → update (Service.new repo) f r w
        ≡ Update.update_gauge (Service.new repo) f r req.id req.value w
  unfolding update
  update-update_gauge w req json decoded kind =
      rw (json, update) (rw decoded (rw (kind, Update.update_metric) refl))

  -- A JSON increment of a counter is stored: the store has the effect of it, and the answer is 200,
  -- or 500 if the new value cannot be encoded. (The content type is JSON, and the body decodes to a
  -- counter with a delta.)
  pub update-counter :
      (w : World S) (req : Metrics) (delta : ℕ)
      → contains (r.header "Content-Type") "application/json" ≡ true
      → f.decode_metrics r.body ≡ some req
      → req.mtype ≡ counter
      → req.delta ≡ some delta
      → ((respond (update (Service.new repo) f r w).0).status
          ≡ encoded_status (
              f.encode_metrics
                (counter_answer req.id (add64 (or_else ((view w.store).counters req.id) 0) delta))))
        × SameView
            (view (update (Service.new repo) f r w).1.store)
            (add_counter req.id delta (view w.store))
  unfolding Update.update_counter
  update-counter w req delta json decoded kind given =
      let (value, effect) = imp.counter_saved req.id delta w.store in
      let (status, kept) =
        counter_saved-ok req.id w (repo.save_counter req.id delta w.store) _ value in
      let here : update (Service.new repo) f r w
          ≡ Update.counter_saved (Service.new repo) f r req.id w
              (repo.save_counter req.id delta w.store) =
        update-update_counter w req json decoded kind
        ∙ ap (λ o. Update.update_counter (Service.new repo) f r req.id o w) given in
      rw here (status, rw kept effect)

  -- A JSON gauge is stored even where the answer fails: the store has its value, and the answer is 200
  -- if JSON has a form for the value and 500 if it has none. (The content type is JSON, and the body
  -- decodes to a gauge with a value.)
  pub update-gauge :
      (w : World S) (req : Metrics) (value : Float64)
      → contains (r.header "Content-Type") "application/json" ≡ true
      → f.decode_metrics r.body ≡ some req
      → req.mtype ≡ gauge
      → req.value ≡ some value
      → ((respond (update (Service.new repo) f r w).0).status
          ≡ encoded_status (f.encode_metrics (gauge_answer req.id value)))
        × SameView
            (view (update (Service.new repo) f r w).1.store)
            (set_gauge req.id value (view w.store))
  unfolding Update.update_gauge
  update-gauge w req value json decoded kind given =
      let (result, effect) = imp.gauge_saved req.id value w.store in
      let (status, kept) =
        gauge_saved-ok req.id w (repo.save_gauge req.id value w.store) _ result in
      let here : update (Service.new repo) f r w
          ≡ Update.gauge_saved (Service.new repo) f r req.id w
              (repo.save_gauge req.id value w.store) =
        update-update_gauge w req json decoded kind
        ∙ ap (λ o. Update.update_gauge (Service.new repo) f r req.id o w) given in
      rw here (status, rw kept effect)
