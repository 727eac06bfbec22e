-- ===== src/Agent/Startup.antt =====
-- run of cmd/agent/main.go up to Runner.Run: the configuration, the sender, gRPC or HTTP, and the
-- runner. Connecting and loading keys are arguments.
use rtmetrics.Base.{String, Option, none, some, ◌==◌, if◌then◌else◌, ◌*◌, ◌-◌, ◌%◌, suc}
use Prim.Native.String.{◌++◌}
use rtmetrics.Base.Int64.{ℤ, pos, negsuc, signed, two64}
use rtmetrics.Repository.{Result, ok, err}
use rtmetrics.Crypto.{Rsa}
use rtmetrics.Config.Agent.{AgentConfig, Sources, parse}
use rtmetrics.Agent.Client.{Client}
use rtmetrics.Agent.Collector.{GaugeMetrics, SystemMetrics}
use rtmetrics.Agent.Runner.{Runner, new_runner}

-- What run gets from outside: agent.NewGRPCClient, rsaenc.LoadPublicKey and realip.Host.
pub record Outside (G : Type 0) : Type 0 where
  pub new_grpc_client : String → String → Result G
  pub load_public_key : String → Result Rsa
  pub host : String

-- The transport that was chosen, with the address that an HTTP client sends to.
pub data Sender (G : Type 0) : Type 0 where
  over_grpc : G → Sender G
  over_http : String → Client → Sender G

-- time.Duration(n) * time.Second, in int64
abbrev pub seconds : ℤ → ℤ
seconds (pos n) = signed (n * 1000000000 % two64)
seconds (negsuc n) = signed ((two64 - suc n * 1000000000 % two64) % two64)

module _ {G : Type 0} (o : Outside G) where
  abbrev pub grpc_sender : Result G → Result (Sender G)
  grpc_sender (err e) = err e
  grpc_sender (ok g) = ok (over_grpc g)

  -- NewClient, then WithPublicKey
  abbrev pub http_client : AgentConfig → Option Rsa → Client
  http_client cfg public_key = record { key = cfg.key; public_key = public_key; real_ip = o.host }

  abbrev pub keyed_sender : AgentConfig → Result Rsa → Result (Sender G)
  keyed_sender cfg (err e) = err e
  keyed_sender cfg (ok k) = ok (over_http ("http://" ++ cfg.address) (http_client cfg (some k)))

  unfoldable pub new_sender : AgentConfig → Result (Sender G)
  new_sender cfg =
      if cfg.grpc_address == ""
      then (if cfg.crypto_key == ""
          then ok (over_http ("http://" ++ cfg.address) (http_client cfg none))
          else keyed_sender cfg (o.load_public_key cfg.crypto_key))
      else grpc_sender (o.new_grpc_client cfg.grpc_address cfg.grpc_cert)

  module _ (gauges : GaugeMetrics) (system : SystemMetrics) where
    abbrev pub with_sender : AgentConfig → Result (Sender G) → Result (Sender G × Runner)
    with_sender cfg (err e) = err e
    with_sender cfg (ok sender) =
        elim (new_runner gauges system (seconds cfg.poll_interval) (seconds cfg.report_interval)
          cfg.rate_limit) [ err e ↦ err e | ok runner ↦ ok (sender, runner) ]

    abbrev pub with_config : Result AgentConfig → Result (Sender G × Runner)
    with_config (err e) = err e
    with_config (ok cfg) = with_sender cfg (new_sender cfg)

    unfoldable pub run : Sources → Result (Sender G × Runner)
    run s = with_config (parse s)
