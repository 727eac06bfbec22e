-- ===== src/Grpc.antt =====
-- The gRPC side: internal/grpcmetrics/server.go, UnaryInterceptor of internal/middleware/subnet, and
-- SendBatch of internal/agent/grpc.go. Metadata is `none` where the context has none.
pub mod Delivery
pub mod Reports
use rtmetrics.Base.{String, Bool, Option, none, some, List, [], ◌∷◌, map, if◌then◌else◌}
use rtmetrics.Model.{Metrics}
use rtmetrics.Repository.{Error, Result, ok, err, wrap}
use rtmetrics.Service.{MetricsService}
use rtmetrics.Audit.{Subject, notify, new_event}
use rtmetrics.Api.{World, Formats}
use rtmetrics.Handler.Updates.{ids}
use rtmetrics.Middleware.Subnet.{Net, allowed, real_ip_header}
use rtmetrics.Proto.{Metric, to_model, from_model}

-- The status of a call, codes.OK being `none`.
pub data Code : Type 0 where
  internal permission_denied : Code

abbrev pub Metadata : Type 0
Metadata = Option (String → List String)

abbrev pub first_or_empty : List String → String
first_or_empty [] = ""
first_or_empty (v ∷ vs) = v

-- metadataValue, and metadataIP for the key realip.Header
unfoldable pub metadata_value : Metadata → String → String
metadata_value none key = ""
metadata_value (some md) key = first_or_empty (md key)

-- `if s.auditor != nil { … s.auditor.Notify(…) }`
abbrev pub notified : Formats → Metadata → List Metrics → Option Subject → Option Subject
notified f md batch none = none
notified f md batch (some s) =
    some (notify (new_event f.now (ids batch) (metadata_value md real_ip_header)) s)

module _ {S : Type 0} (svc : MetricsService S) (f : Formats) (md : Metadata) where
  unfoldable pub batch_saved :
      List Metrics → World S → Result (Unit {0}) × S → Option Code × World S
  batch_saved batch w (err e, s) = (some internal, record w { store = s })
  batch_saved batch w (ok _, s) =
      (none, record w { store = s; auditor = notified f md batch w.auditor })

  unfoldable pub update_batch : List Metrics → World S → Option Code × World S
  update_batch [] w = (none, w)
  update_batch (m ∷ ms) w = batch_saved (m ∷ ms) w (svc.update_batch (m ∷ ms) w.store)

  -- UpdateMetrics; a nil request is `none`.
  unfoldable pub update_metrics : Option (List (Option Metric)) → World S → Option Code × World S
  update_metrics none w = (none, w)
  update_metrics (some metrics) w = update_batch (to_model metrics) w

-- UnaryInterceptor
unfoldable pub unary_interceptor :
    {W : Type 0}
    → (net : Net) → Option net.Network
    → Metadata
    → (W → Option Code × W)
    → W
    → Option Code × W
unary_interceptor net none md handler w = handler w
unary_interceptor net (some network) md handler w =
    if allowed net (some network) (metadata_value md real_ip_header)
    then handler w
    else (some permission_denied, w)

-- SendBatch of GRPCClient: `call` is the UpdateMetrics of the connection.
unfoldable pub send_batch :
    {T : Type 0} → (List Metric → T → Option Error × T) → List Metrics → T → Option Error × T
send_batch call [] t = (none, t)
send_batch call (m ∷ ms) t =
    let answer = call (from_model (m ∷ ms)) t in
    (elim answer.0 [ none ↦ none | some e ↦ some (wrap "grpc update metrics" e) ], answer.1)
