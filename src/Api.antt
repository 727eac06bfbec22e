-- ===== src/Api.antt =====
-- What the handlers share (internal/handler): the state behind a request, and what they get from
-- outside the repository's code.
use rtmetrics.Base.{ℕ, String, Bool, not, ◌&&◌, ◌==◌, Option, List, Bytes}
use rtmetrics.Model.{Float64, Metrics, counter, gauge}
use rtmetrics.Audit.{Subject, notify_request, client_ip}
use rtmetrics.Http.{Request}

-- The store, and the audit subject, `none` where auditing is off.
pub record World (S : Type 0) : Type 0 where
  pub store : S
  pub auditor : Option Subject

-- encoding/json on the metrics of requests and answers, strconv's ParseFloat(s, 64) and
-- FormatFloat(v, 'f', -1, 64), the host of net.SplitHostPort, and the clock. JSON has no form for
-- some floats, and encoding then fails.
pub record Formats : Type 0 where
  pub decode_metrics : Bytes → Option Metrics
  pub encode_metrics : Metrics → Option Bytes
  pub decode_batch : Bytes → Option (List Metrics)
  pub parse_float : Bytes → Option Float64
  pub format_float : Float64 → Bytes
  pub split_host_port : String → Option String
  pub now : ℕ

-- auditor.NotifyRequest(r, names)
abbrev pub audited : {S : Type 0} → Formats → Request → List String → World S → World S
audited f r names w = record w {
  auditor =
      notify_request f.now names (client_ip (f.split_host_port r.remote_addr) r.remote_addr)
        w.auditor;
}

-- mtype != Counter && mtype != Gauge
abbrev pub is_unknown : String → Bool
is_unknown mtype = not (mtype == counter) && not (mtype == gauge)
