-- ===== src/Grpc/Delivery.antt =====
-- A batch of the agent (internal/agent/runner.go, grpc.go) over gRPC to the store
-- (internal/grpcmetrics/server.go).
use rtmetrics.Base.{◌≡◌, refl, true, Option, none, some, List, [], ◌∷◌, map, All}
use rtmetrics.Model.{Metrics}
use rtmetrics.Repository.{Error, Result, ok, err, other, MetricsRepository}
use rtmetrics.Repository.Contract.{View, SameView, SameView-refl, Implements, apply_batch}
use rtmetrics.Service
use rtmetrics.Api.{World, Formats}
use rtmetrics.Proto.{Metric, from_model}
use rtmetrics.Proto.RoundTrip.{IsNamed, to_model-from_model}
use rtmetrics.Middleware.Subnet.{Net, allowed, real_ip_header}
use rtmetrics.Grpc.{
  Code, Metadata, metadata_value, batch_saved, update_batch, update_metrics, unary_interceptor,
  send_batch,
}

module _ {T : Type 0} (call : List Metric → T → Option Error × T) where
  send_batch-none : (t : T) → send_batch call [] t ≡ (none, t)
  unfolding send_batch
  send_batch-none t = refl

  send_batch-answered :
      (m : Metrics) (ms : List Metrics) (t t' : T)
      → call (from_model (m ∷ ms)) t ≡ (none, t')
      → send_batch call (m ∷ ms) t ≡ (none, t')
  unfolding send_batch
  send_batch-answered m ms t t' h = rw h refl

module _ {S : Type 0} {repo : MetricsRepository S} {view : S → View} (imp : Implements repo view)
    (f : Formats) (md : Metadata) where
  saved :
      (batch : List Metrics) (w : World S) (p : Result (Unit {0}) × S)
      → p.0 ≡ ok tt
      → ((batch_saved (Service.new repo) f md batch w p).0 ≡ none)
        × ((batch_saved (Service.new repo) f md batch w p).1.store ≡ p.1)
  unfolding batch_saved
  saved batch w (ok _, s) e = (refl, refl)
  saved batch w (err x, s) e = cc

  stored :
      (batch : List Metrics) (w : World S)
      → ((update_batch (Service.new repo) f md batch w).0 ≡ none)
        × SameView
            (view (update_batch (Service.new repo) f md batch w).1.store)
            (apply_batch batch (view w.store))
  unfolding update_batch
  stored [] w = (refl, SameView-refl (view w.store))
  stored (m ∷ ms) w =
      let (done, effect) = imp.batch_saved (m ∷ ms) w.store in
      let (status, kept) = saved (m ∷ ms) w _ done in (status, rw kept effect)

  trusted_call :
      (net : Net) (t : Option net.Network) (handler : World S → Option Code × World S) (w : World S)
      → allowed net t (metadata_value md real_ip_header) ≡ true
      → unary_interceptor net t md handler w ≡ handler w
  unfolding unary_interceptor
  trusted_call net none handler w h = refl
  trusted_call net (some network) handler w h = rw h refl

  module _ (net : Net) (t : Option net.Network) where
    abbrev pub status_error : Option Code → Option Error
    status_error none = none
    status_error (some code) = some (other "rpc error")

    -- The connection of the client: the interceptor and UpdateMetrics answer the call.
    abbrev pub over_network : List Metric → World S → Option Error × World S
    over_network metrics w =
        let answer =
          unary_interceptor net t md
            (update_metrics (Service.new repo) f md (some (map some metrics))) w in
        (status_error answer.0, answer.1)

    -- A batch of named metrics that SendBatch sends over gRPC is stored whole: SendBatch returns nil,
    -- and the store has the effect of all its metrics, one after another, through FromModel, the
    -- subnet check and ToModel. (The address in the metadata is in the trusted subnet, and the network
    -- loses nothing.)
    pub send_batch-Applied :
        (batch : List Metrics) (w : World S)
        → All IsNamed batch
        → allowed net t (metadata_value md real_ip_header) ≡ true
        → ((send_batch over_network batch w).0 ≡ none)
          × SameView
              (view (send_batch over_network batch w).1.store)
              (apply_batch batch (view w.store))
    unfolding update_metrics
    send_batch-Applied [] w named trust =
        rw (send_batch-none over_network w) (refl, SameView-refl (view w.store))
    send_batch-Applied (m ∷ ms) w named trust =
        let back = to_model-from_model (m ∷ ms) named in
        let call =
          trusted_call net t
            (update_metrics (Service.new repo) f md (some (map some (from_model (m ∷ ms))))) w
            trust in
        let (done, effect) = stored (m ∷ ms) w in
        let answer : over_network (from_model (m ∷ ms)) w
            ≡ (none, (update_batch (Service.new repo) f md (m ∷ ms) w).1) =
          rw call (rw back (rw done refl)) in
        rw (send_batch-answered over_network m ms w _ answer) (refl, effect)
