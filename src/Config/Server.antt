-- ===== src/Config/Server.antt =====
-- internal/config/server: the server's configuration, its defaults, the JSON file laid over it and
-- the variable STORE_FILE.
use rtmetrics.Base.{String, Bool, false, Option, none, some, ◌||◌}
use rtmetrics.Base.Int64.{ℤ, pos}
use rtmetrics.Config.Common.{assign, assign_func, parse_interval_seconds}

-- Durations are nanoseconds.
pub record HttpServerConfig : Type 0 where
  pub address : String
  pub read_timeout : ℤ
  pub write_timeout : ℤ
  pub idle_timeout : ℤ

-- internal/database/database.go: Config
pub record DatabaseConfig : Type 0 where
  pub max_open_conns : ℤ
  pub max_idle_conns : ℤ
  pub conn_max_idle_time : ℤ
  pub conn_max_lifetime : ℤ
  pub ping_timeout : ℤ

pub record ServerConfig : Type 0 where
  pub env : String
  pub http_server : HttpServerConfig
  pub database : DatabaseConfig
  pub store_interval : ℤ
  pub file_storage_path : String
  pub restore : Bool
  pub database_dsn : String
  pub key : String
  pub crypto_key : String
  pub audit_file : String
  pub audit_url : String
  pub trusted_subnet : String
  pub grpc_address : String
  pub grpc_cert : String
  pub grpc_key : String

abbrev pub default_database : DatabaseConfig
default_database = record {
  max_open_conns = pos 10;
  max_idle_conns = pos 5;
  conn_max_idle_time = pos 60000000000;
  conn_max_lifetime = pos 1800000000000;
  ping_timeout = pos 5000000000;
}

abbrev pub defaults : ServerConfig
defaults = record {
  env = "local";
  http_server = record {
    address = "localhost:8080";
    read_timeout = pos 10000000000;
    write_timeout = pos 10000000000;
    idle_timeout = pos 60000000000;
  };
  database = default_database;
  store_interval = pos 300;
  file_storage_path = "./tmp/data";
  restore = false;
  database_dsn = "";
  key = "";
  crypto_key = "";
  audit_file = "";
  audit_url = "";
  trusted_subnet = "";
  grpc_address = "";
  grpc_cert = "";
  grpc_key = "";
}

-- The JSON file: what is absent is `none`.
pub record FileConfig : Type 0 where
  pub address : Option String
  pub restore : Option Bool
  pub store_interval : Option String
  pub store_file : Option String
  pub database_dsn : Option String
  pub crypto_key : Option String
  pub key : Option String
  pub audit_file : Option String
  pub audit_url : Option String
  pub trusted_subnet : Option String
  pub grpc_address : Option String
  pub grpc_cert : Option String
  pub grpc_key : Option String
  pub database_max_open_conns : Option ℤ
  pub database_max_idle_conns : Option ℤ
  pub database_conn_max_idle_time : Option String
  pub database_conn_max_lifetime : Option String
  pub database_ping_timeout : Option String

-- overlayFile: the configuration that it leaves, and whether the joined error is not nil.
unfoldable pub overlay_file : (String → Option ℤ) → ServerConfig → FileConfig → ServerConfig × Bool
unfolding assign assign_func
overlay_file parse_duration cfg file =
    let (store_interval, bad_interval) =
      assign_func cfg.store_interval file.store_interval (parse_interval_seconds parse_duration) in
    let (idle_time, bad_idle) =
      assign_func cfg.database.conn_max_idle_time file.database_conn_max_idle_time parse_duration in
    let (lifetime, bad_lifetime) =
      assign_func cfg.database.conn_max_lifetime file.database_conn_max_lifetime parse_duration in
    let (ping_timeout, bad_ping) =
      assign_func cfg.database.ping_timeout file.database_ping_timeout parse_duration in
    (
      record {
        env = cfg.env;
        http_server = record cfg.http_server {
          address = assign cfg.http_server.address file.address;
        };
        database = record {
          max_open_conns = assign cfg.database.max_open_conns file.database_max_open_conns;
          max_idle_conns = assign cfg.database.max_idle_conns file.database_max_idle_conns;
          conn_max_idle_time = idle_time;
          conn_max_lifetime = lifetime;
          ping_timeout = ping_timeout;
        };
        store_interval = store_interval;
        file_storage_path = assign cfg.file_storage_path file.store_file;
        restore = assign cfg.restore file.restore;
        database_dsn = assign cfg.database_dsn file.database_dsn;
        key = assign cfg.key file.key;
        crypto_key = assign cfg.crypto_key file.crypto_key;
        audit_file = assign cfg.audit_file file.audit_file;
        audit_url = assign cfg.audit_url file.audit_url;
        trusted_subnet = assign cfg.trusted_subnet file.trusted_subnet;
        grpc_address = assign cfg.grpc_address file.grpc_address;
        grpc_cert = assign cfg.grpc_cert file.grpc_cert;
        grpc_key = assign cfg.grpc_key file.grpc_key;
      },
      bad_interval || (bad_idle || (bad_lifetime || bad_ping)),
    )

-- applyStoreFileEnv: the variables FILE_STORAGE_PATH and STORE_FILE, `none` where unset.
unfoldable pub apply_store_file_env : Option String → Option String → ServerConfig → ServerConfig
apply_store_file_env (some path) store_file cfg = cfg
apply_store_file_env none none cfg = cfg
apply_store_file_env none (some v) cfg = record cfg { file_storage_path = v }
