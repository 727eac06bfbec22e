-- ===== src/Config/Parse.antt =====
-- parse of internal/config/server/config.go, with applyFile of file.go and the bindings of
-- internal/config/common/bindings.go. flag.FlagSet.Parse, reading a JSON file and env.Parse are
-- arguments.
pub mod Layers
pub mod Sourced
pub mod Precedence
use rtmetrics.Base.{
  String, Bool, true, false, Option, none, some, List, [], ◌∷◌, if◌then◌else◌, ◌==◌,
}
use rtmetrics.Base.Int64.{ℤ}
use rtmetrics.Repository.{Error, Result, ok, err, other}
use rtmetrics.Config.Common.{apply_visited, resolve_config_path}
use rtmetrics.Config.Server.{ServerConfig, FileConfig, defaults, overlay_file, apply_store_file_env}

-- What FlagSet.Parse leaves: the names that Visit goes through, the variables of the flags, which
-- have the default where the flag is not given, and configPath.
pub record Flags : Type 0 where
  pub visited : List String
  pub text : String → String
  pub int : String → ℤ
  pub bool : String → Bool
  pub duration : String → ℤ
  pub config_path : String

-- What parse gets from outside: the arguments parsed, a file decoded, time.ParseDuration, env.Parse,
-- and the variables CONFIG, FILE_STORAGE_PATH and STORE_FILE where they are set.
pub record Sources : Type 0 where
  pub parse_flags : Result Flags
  pub load_json : String → Result FileConfig
  pub parse_duration : String → Option ℤ
  pub parse_env : ServerConfig → Result ServerConfig
  pub config_var : Option String
  pub file_storage_path_var : Option String
  pub store_file_var : Option String

-- The flags that parse registers, each with its write to the configuration.
abbrev pub bindings : Flags → List (String × (ServerConfig → ServerConfig))
bindings f =
    ("a", λ c. record c { http_server = record c.http_server { address = f.text "a" } })
    ∷ ("i", λ c. record c { store_interval = f.int "i" })
    ∷ ("f", λ c. record c { file_storage_path = f.text "f" })
    ∷ ("r", λ c. record c { restore = f.bool "r" })
    ∷ ("d", λ c. record c { database_dsn = f.text "d" })
    ∷ ("k", λ c. record c { key = f.text "k" })
    ∷ ("crypto-key", λ c. record c { crypto_key = f.text "crypto-key" })
    ∷ ("audit-file", λ c. record c { audit_file = f.text "audit-file" })
    ∷ ("audit-url", λ c. record c { audit_url = f.text "audit-url" })
    ∷ ("t", λ c. record c { trusted_subnet = f.text "t" })
    ∷ ("g", λ c. record c { grpc_address = f.text "g" })
    ∷ ("grpc-cert", λ c. record c { grpc_cert = f.text "grpc-cert" })
    ∷ ("grpc-key", λ c. record c { grpc_key = f.text "grpc-key" })
    ∷ (
      "db-max-open-conns",
      λ c. record c { database = record c.database { max_open_conns = f.int "db-max-open-conns" } },
    )
    ∷ (
      "db-max-idle-conns",
      λ c. record c { database = record c.database { max_idle_conns = f.int "db-max-idle-conns" } },
    )
    ∷ (
      "db-conn-max-idle-time",
      λ c. record c {
        database = record c.database { conn_max_idle_time = f.duration "db-conn-max-idle-time" };
      },
    )
    ∷ (
      "db-conn-max-lifetime",
      λ c. record c {
        database = record c.database { conn_max_lifetime = f.duration "db-conn-max-lifetime" };
      },
    )
    ∷ (
      "db-ping-timeout",
      λ c. record c {
        database = record c.database { ping_timeout = f.duration "db-ping-timeout" };
      },
    )
    ∷ []

module _ (s : Sources) where
  abbrev pub unless_bad : ServerConfig × Bool → Result ServerConfig
  unless_bad (c, bad) = if bad then err (other "config file") else ok c

  abbrev pub overlaid : ServerConfig → Result FileConfig → Result ServerConfig
  overlaid c (err e) = err e
  overlaid c (ok file) = unless_bad (overlay_file s.parse_duration c file)

  -- applyFile
  unfoldable pub apply_file : ServerConfig → String → Result ServerConfig
  apply_file c path = overlaid c (s.load_json path)

  -- `if path := common.ResolveConfigPath(configPath); path != "" { … }`
  unfoldable pub with_file : Flags → Result ServerConfig
  unfolding apply_file
  with_file f =
      let path = resolve_config_path s.config_var f.config_path in
      if path == "" then ok defaults else apply_file defaults path

  -- flags.Apply, env.Parse and applyStoreFileEnv
  abbrev pub with_env : Result ServerConfig → Result ServerConfig
  with_env (err e) = err e
  with_env (ok c) = ok (apply_store_file_env s.file_storage_path_var s.store_file_var c)

  abbrev pub with_flags : Flags → Result ServerConfig → Result ServerConfig
  with_flags f (err e) = err e
  with_flags f (ok c) = with_env (s.parse_env (apply_visited (bindings f) f.visited c))

  abbrev pub after_flags : Result Flags → Result ServerConfig
  after_flags (err e) = err e
  after_flags (ok f) = with_flags f (with_file f)

  unfoldable pub parse : Result ServerConfig
  parse = after_flags s.parse_flags
