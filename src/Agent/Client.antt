-- ===== src/Agent/Client.antt =====
-- internal/agent/client.go: the HTTP client of the agent. resty, the network and the random source are
-- a transport: an operation on its state sends a request and returns a status or an error.
use rtmetrics.Base.{
  ℕ, String, Bool, true, false, ◌&&◌, Option, none, some, List, [], ◌∷◌, ◌++◌, Bytes, ◌==◌,
  if◌then◌else◌, ltb, leb, or_else,
}
use rtmetrics.Base.GoMap.{lookup}
use rtmetrics.Model.{Float64, Metrics, new_counter, new_gauge}
use rtmetrics.Repository.{Error, Result, ok, err, net_error, other, wrap}
use rtmetrics.Agent.Collector.{CountMetrics}
use rtmetrics.Retry.{do_retry}
use rtmetrics.Http.{Request}
use rtmetrics.Crypto.{Mac, Rsa, Gcm, Draw, sign, encrypt}
use rtmetrics.Middleware.Decrypt.{encrypted_header, encrypted_value}
use rtmetrics.Middleware.Sign.{hash_header}
use rtmetrics.Middleware.Subnet.{real_ip_header}
use rtmetrics.Middleware.Compress.{Gzip}

-- Client, with the address of NewClient's header.
pub record Client : Type 0 where
  pub key : String
  pub public_key : Option Rsa
  pub real_ip : String

-- `draw` gives the random bytes of the next encryption, and `deliver` sends a request.
pub record Transport (T : Type 0) : Type 0 where
  pub draw : T → Draw × T
  pub deliver : Request → T → Result ℕ × T

-- encoding/json and compress/gzip as the client uses them.
pub record Encoders : Type 0 where
  pub mac : Mac
  pub gcm : Gcm
  pub gzip : Gzip
  pub encode_metric : Metrics → Option Bytes
  pub encode_batch : List Metrics → Option Bytes

-- isRetriableNetworkError; a wrapped error is looked into.
unfoldable pub is_retriable_network_error : Error → Bool
is_retriable_network_error net_error = true
is_retriable_network_error (wrap s e) = is_retriable_network_error e
is_retriable_network_error e = false

-- The headers of a list; a later entry is not looked at, and a missing one reads as "".
abbrev pub header_of : List (String × String) → String → String
header_of headers k = or_else (lookup k headers) ""

-- `if c.key != "" { … }`
abbrev pub with_signature : Mac → Client → Bytes → List (String × String) → List (String × String)
with_signature mac c payload headers =
    if c.key == "" then headers else (hash_header, sign mac payload c.key) ∷ headers

-- `if c.pub != nil { … }`
abbrev pub with_mark : Option Rsa → List (String × String) → List (String × String)
with_mark none headers = headers
with_mark (some key) headers = (encrypted_header, encrypted_value) ∷ headers

-- The headers that the transport adds of itself, and the address that the server sees.
pub record Route : Type 0 where
  pub added : List (String × String)
  pub remote_addr : String

-- The request of an attempt: `wire` goes over the network, and `payload` is signed.
unfoldable pub request_for :
    Mac → Client → Route → String → List (String × String) → Bytes → Bytes → Request
request_for mac c via path headers wire payload = record {
  method = "POST";
  path = path;
  header = header_of (
      with_mark c.public_key
        (with_signature mac c payload (headers ++ (real_ip_header, c.real_ip) ∷ via.added)));
  param = λ k. "";
  body = wire;
  body_ok = true;
  remote_addr = via.remote_addr;
}

abbrev pub json_headers : List (String × String)
json_headers = ("Content-Type", "application/json") ∷ []

abbrev pub batch_headers : List (String × String)
batch_headers = ("Content-Type", "application/json") ∷ ("Content-Encoding", "gzip") ∷ []

module _ {T : Type 0} (transport : Transport T) (enc : Encoders) (c : Client) (via : Route) where
  -- IsSuccess: a status from 200 to 299
  unfoldable pub answered : Result ℕ × T → Option Error × T
  answered (err e, t) = (some e, t)
  answered (ok status, t) =
      (if leb 200 status && ltb status 300 then none else some (other "unexpected status code"), t)

  abbrev pub encrypted :
      String → List (String × String) → Bytes → Option Bytes → T → Option Error × T
  encrypted path headers payload none t = (some (other "encrypt"), t)
  encrypted path headers payload (some wire) t =
      answered (transport.deliver (request_for enc.mac c via path headers wire payload) t)

  abbrev pub drawn :
      String → List (String × String) → Bytes → Bytes → Rsa → Draw × T → Option Error × T
  drawn path headers body payload rsa (d, t) =
      encrypted path headers payload (encrypt enc.gcm (some rsa) d body) t

  abbrev pub sent :
      String → List (String × String) → Bytes → Bytes → Option Rsa → T → Option Error × T
  sent path headers body payload none t = encrypted path headers payload (some body) t
  sent path headers body payload (some rsa) t =
      drawn path headers body payload rsa (transport.draw t)

  -- The function that post hands to retry.Do.
  unfoldable pub attempt : String → List (String × String) → Bytes → Bytes → T → Option Error × T
  attempt path headers body payload t = sent path headers body payload c.public_key t

  module _ (ctx_err : Option Error) (cancelled : ℕ → Bool) where
    unfoldable pub post : String → List (String × String) → Bytes → Bytes → T → Option Error × T
    post path headers body payload t =
        do_retry is_retriable_network_error (attempt path headers body payload) ctx_err cancelled t

    -- fmt.Errorf("…: %w", err)
    abbrev pub wrapped : String → Option Error × T → Option Error × T
    wrapped msg (none, t) = (none, t)
    wrapped msg (some e, t) = (some (wrap msg e), t)

    abbrev pub send_encoded : String → Option Bytes → T → Option Error × T
    send_encoded msg none t = (some (wrap msg (other "json")), t)
    send_encoded msg (some body) t = wrapped msg (post "/update" json_headers body body t)

    unfoldable pub send_gauge : String → Float64 → T → Option Error × T
    send_gauge name value t = send_encoded name (enc.encode_metric (new_gauge name value)) t

    unfoldable pub send_counter : String → ℕ → T → Option Error × T
    send_counter name value t = send_encoded name (enc.encode_metric (new_counter name value)) t

    abbrev pub send_encoded_batch : Option Bytes → T → Option Error × T
    send_encoded_batch none t = (some (wrap "failed to marshal metrics batch" (other "json")), t)
    send_encoded_batch (some json) t =
        wrapped "failed to send metrics batch"
          (post "/updates/" batch_headers (enc.gzip.deflate json) json t)

    unfoldable pub send_batch : List Metrics → T → Option Error × T
    send_batch [] t = (none, t)
    send_batch (m ∷ ms) t = send_encoded_batch (enc.encode_batch (m ∷ ms)) t

    -- SendCounterMetrics: an error is logged and dropped.
    unfoldable pub send_counter_metrics : CountMetrics → T → T
    send_counter_metrics metrics t = (send_counter "PollCount" metrics.poll_count t).1
