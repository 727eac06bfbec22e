-- ===== src/Config/Agent.antt =====
-- internal/config/agent: the agent's configuration and the order of its sources. flag.FlagSet.Parse,
-- reading a JSON file and env.Parse are arguments.
use rtmetrics.Base.{String, Bool, Option, List, [], ◌∷◌, ◌||◌, if◌then◌else◌, ◌==◌}
use rtmetrics.Base.Int64.{ℤ, pos}
use rtmetrics.Repository.{Result, ok, err, other}
use rtmetrics.Config.Common.{
  assign, assign_func, parse_interval_seconds, apply_visited, resolve_config_path,
}
use rtmetrics.Config.Parse.{Flags}

pub record AgentConfig : Type 0 where
  pub env : String
  pub address : String
  pub report_interval : ℤ
  pub poll_interval : ℤ
  pub key : String
  pub rate_limit : ℤ
  pub crypto_key : String
  pub grpc_address : String
  pub grpc_cert : String

-- The JSON file: what is absent is `none`.
pub record FileConfig : Type 0 where
  pub address : Option String
  pub report_interval : Option String
  pub poll_interval : Option String
  pub crypto_key : Option String
  pub key : Option String
  pub rate_limit : Option ℤ
  pub grpc_address : Option String
  pub grpc_cert : Option String

abbrev pub defaults : AgentConfig
defaults = record {
  env = "local";
  address = "localhost:8080";
  report_interval = pos 10;
  poll_interval = pos 2;
  key = "";
  rate_limit = pos 1;
  crypto_key = "";
  grpc_address = "";
  grpc_cert = "";
}

-- overlayFile: the configuration that it leaves, and whether the joined error is not nil.
unfoldable pub overlay_file : (String → Option ℤ) → AgentConfig → FileConfig → AgentConfig × Bool
unfolding assign assign_func
overlay_file parse_duration cfg file =
    let (report_interval, bad_report) =
      assign_func cfg.report_interval file.report_interval
        (parse_interval_seconds parse_duration) in
    let (poll_interval, bad_poll) =
      assign_func cfg.poll_interval file.poll_interval (parse_interval_seconds parse_duration) in
    (
      record {
        env = cfg.env;
        address = assign cfg.address file.address;
        report_interval = report_interval;
        poll_interval = poll_interval;
        key = assign cfg.key file.key;
        rate_limit = assign cfg.rate_limit file.rate_limit;
        crypto_key = assign cfg.crypto_key file.crypto_key;
        grpc_address = assign cfg.grpc_address file.grpc_address;
        grpc_cert = assign cfg.grpc_cert file.grpc_cert;
      },
      bad_report || bad_poll,
    )

-- What parse gets from outside: the arguments parsed, a file decoded, time.ParseDuration, env.Parse,
-- and the variable CONFIG where it is set.
pub record Sources : Type 0 where
  pub parse_flags : Result Flags
  pub load_json : String → Result FileConfig
  pub parse_duration : String → Option ℤ
  pub parse_env : AgentConfig → Result AgentConfig
  pub config_var : Option String

-- The flags that parse registers, each with its write to the configuration.
abbrev pub bindings : Flags → List (String × (AgentConfig → AgentConfig))
bindings f =
    ("a", λ c. record c { address = f.text "a" })
    ∷ ("r", λ c. record c { report_interval = f.int "r" })
    ∷ ("p", λ c. record c { poll_interval = f.int "p" })
    ∷ ("k", λ c. record c { key = f.text "k" })
    ∷ ("l", λ c. record c { rate_limit = f.int "l" })
    ∷ ("crypto-key", λ c. record c { crypto_key = f.text "crypto-key" })
    ∷ ("g", λ c. record c { grpc_address = f.text "g" })
    ∷ ("grpc-cert", λ c. record c { grpc_cert = f.text "grpc-cert" })
    ∷ []

module _ (s : Sources) where
  abbrev pub unless_bad : AgentConfig × Bool → Result AgentConfig
  unless_bad (c, bad) = if bad then err (other "config file") else ok c

  abbrev pub overlaid : AgentConfig → Result FileConfig → Result AgentConfig
  overlaid c (err e) = err e
  overlaid c (ok file) = unless_bad (overlay_file s.parse_duration c file)

  -- applyFile
  unfoldable pub apply_file : AgentConfig → String → Result AgentConfig
  apply_file c path = overlaid c (s.load_json path)

  -- `if path := common.ResolveConfigPath(configPath); path != "" { … }`
  unfoldable pub with_file : Flags → Result AgentConfig
  unfolding apply_file
  with_file f =
      let path = resolve_config_path s.config_var f.config_path in
      if path == "" then ok defaults else apply_file defaults path

  -- flags.Apply, then env.Parse
  abbrev pub with_flags : Flags → Result AgentConfig → Result AgentConfig
  with_flags f (err e) = err e
  with_flags f (ok c) = s.parse_env (apply_visited (bindings f) f.visited c)

  abbrev pub after_flags : Result Flags → Result AgentConfig
  after_flags (err e) = err e
  after_flags (ok f) = with_flags f (with_file f)

  unfoldable pub parse : Result AgentConfig
  parse = after_flags s.parse_flags
