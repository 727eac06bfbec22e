-- ===== src/Config/Parse/Sourced.antt =====
-- Where each field of the server's configuration comes from (internal/config/server/config.go).
use rtmetrics.Base.{String, ◌≡◌, ◌≢◌, ◌⊎◌, Bool, Option, none, some, if◌then◌else◌}
use rtmetrics.Base.Int64.{ℤ}
use rtmetrics.Repository.{ok}
use rtmetrics.Config.Common.{assign, assign_func, parse_interval_seconds, resolve_config_path}
use rtmetrics.Config.Server.{ServerConfig, FileConfig, defaults}
use rtmetrics.Config.Parse.{Flags, Sources}
use rtmetrics.Config.Parse.Layers.{given}

-- The values of the environment variables that are set.
pub record Vars : Type 0 where
  pub address : Option String
  pub store_interval : Option ℤ
  pub file_storage_path : Option String
  pub restore : Option Bool
  pub database_dsn : Option String
  pub key : Option String
  pub crypto_key : Option String
  pub audit_file : Option String
  pub audit_url : Option String
  pub trusted_subnet : Option String
  pub grpc_address : Option String
  pub grpc_cert : Option String
  pub grpc_key : Option String
  pub database_max_open_conns : Option ℤ
  pub database_max_idle_conns : Option ℤ
  pub database_conn_max_idle_time : Option ℤ
  pub database_conn_max_lifetime : Option ℤ
  pub database_ping_timeout : Option ℤ

-- A field whose variable is set has its value, the others stay.
pub record Overlaid (vars : Vars) (c r : ServerConfig) : Type 0 where
  pub address : r.http_server.address ≡ assign c.http_server.address vars.address
  pub store_interval : r.store_interval ≡ assign c.store_interval vars.store_interval
  pub file_storage_path : r.file_storage_path ≡ assign c.file_storage_path vars.file_storage_path
  pub restore : r.restore ≡ assign c.restore vars.restore
  pub database_dsn : r.database_dsn ≡ assign c.database_dsn vars.database_dsn
  pub key : r.key ≡ assign c.key vars.key
  pub crypto_key : r.crypto_key ≡ assign c.crypto_key vars.crypto_key
  pub audit_file : r.audit_file ≡ assign c.audit_file vars.audit_file
  pub audit_url : r.audit_url ≡ assign c.audit_url vars.audit_url
  pub trusted_subnet : r.trusted_subnet ≡ assign c.trusted_subnet vars.trusted_subnet
  pub grpc_address : r.grpc_address ≡ assign c.grpc_address vars.grpc_address
  pub grpc_cert : r.grpc_cert ≡ assign c.grpc_cert vars.grpc_cert
  pub grpc_key : r.grpc_key ≡ assign c.grpc_key vars.grpc_key
  pub database_max_open_conns :
      r.database.max_open_conns ≡ assign c.database.max_open_conns vars.database_max_open_conns
  pub database_max_idle_conns :
      r.database.max_idle_conns ≡ assign c.database.max_idle_conns vars.database_max_idle_conns
  pub database_conn_max_idle_time :
      r.database.conn_max_idle_time
      ≡ assign c.database.conn_max_idle_time vars.database_conn_max_idle_time
  pub database_conn_max_lifetime :
      r.database.conn_max_lifetime
      ≡ assign c.database.conn_max_lifetime vars.database_conn_max_lifetime
  pub database_ping_timeout :
      r.database.ping_timeout ≡ assign c.database.ping_timeout vars.database_ping_timeout

-- A file that says nothing.
abbrev pub empty_file : FileConfig
empty_file = record {
  address = none;
  restore = none;
  store_interval = none;
  store_file = none;
  database_dsn = none;
  crypto_key = none;
  key = none;
  audit_file = none;
  audit_url = none;
  trusted_subnet = none;
  grpc_address = none;
  grpc_cert = none;
  grpc_key = none;
  database_max_open_conns = none;
  database_max_idle_conns = none;
  database_conn_max_idle_time = none;
  database_conn_max_lifetime = none;
  database_ping_timeout = none;
}

-- The file: read from the path where one is given, else empty.
abbrev pub Read : Sources → Flags → FileConfig → Type 0
Read s f file =
    let path = resolve_config_path s.config_var f.config_path in
    ((path ≡ "") × (file ≡ empty_file)) ⊎ ((path ≢ "") × (s.load_json path ≡ ok file))

-- The value of the flag if it is given, else that of the file, else the default.
abbrev pub layered : {A : Type 0} → A → Option A → Bool → A → A
layered default file flag value = if flag then value else assign default file

-- STORE_FILE counts where it is set and FILE_STORAGE_PATH is not.
abbrev pub stored_path : Sources → String → String
stored_path s path = elim s.file_storage_path_var [
  | some v ↦ path
  | none ↦ assign path s.store_file_var
]

-- Every field comes from the last source that gives it.
pub record Layered (s : Sources) (vars : Vars) (f : Flags) (file : FileConfig) (r : ServerConfig)
    : Type 0 where
  pub address :
      r.http_server.address
      ≡ assign
          (layered defaults.http_server.address file.address (given "a" f.visited) (f.text "a"))
          vars.address
  pub store_interval :
      r.store_interval
      ≡ assign
          (if given "i" f.visited
            then f.int "i"
            else (assign_func defaults.store_interval file.store_interval
                (parse_interval_seconds s.parse_duration)).0)
          vars.store_interval
  pub file_storage_path :
      r.file_storage_path
      ≡ stored_path s (
          assign
            (layered defaults.file_storage_path file.store_file (given "f" f.visited) (f.text "f"))
            vars.file_storage_path)
  pub restore :
      r.restore
      ≡ assign
          (layered defaults.restore file.restore (given "r" f.visited) (f.bool "r"))
          vars.restore
  pub database_dsn :
      r.database_dsn
      ≡ assign
          (layered defaults.database_dsn file.database_dsn (given "d" f.visited) (f.text "d"))
          vars.database_dsn
  pub key :
      r.key ≡ assign (layered defaults.key file.key (given "k" f.visited) (f.text "k")) vars.key
  pub crypto_key :
      r.crypto_key
      ≡ assign
          (layered defaults.crypto_key file.crypto_key
            (given "crypto-key" f.visited)
            (f.text "crypto-key"))
          vars.crypto_key
  pub audit_file :
      r.audit_file
      ≡ assign
          (layered defaults.audit_file file.audit_file
            (given "audit-file" f.visited)
            (f.text "audit-file"))
          vars.audit_file
  pub audit_url :
      r.audit_url
      ≡ assign
          (layered defaults.audit_url file.audit_url
            (given "audit-url" f.visited)
            (f.text "audit-url"))
          vars.audit_url
  pub trusted_subnet :
      r.trusted_subnet
      ≡ assign
          (layered defaults.trusted_subnet file.trusted_subnet (given "t" f.visited) (f.text "t"))
          vars.trusted_subnet
  pub grpc_address :
      r.grpc_address
      ≡ assign
          (layered defaults.grpc_address file.grpc_address (given "g" f.visited) (f.text "g"))
          vars.grpc_address
  pub grpc_cert :
      r.grpc_cert
      ≡ assign
          (layered defaults.grpc_cert file.grpc_cert
            (given "grpc-cert" f.visited)
            (f.text "grpc-cert"))
          vars.grpc_cert
  pub grpc_key :
      r.grpc_key
      ≡ assign
          (layered defaults.grpc_key file.grpc_key (given "grpc-key" f.visited) (f.text "grpc-key"))
          vars.grpc_key
  pub database_max_open_conns :
      r.database.max_open_conns
      ≡ assign
          (layered defaults.database.max_open_conns file.database_max_open_conns
            (given "db-max-open-conns" f.visited)
            (f.int "db-max-open-conns"))
          vars.database_max_open_conns
  pub database_max_idle_conns :
      r.database.max_idle_conns
      ≡ assign
          (layered defaults.database.max_idle_conns file.database_max_idle_conns
            (given "db-max-idle-conns" f.visited)
            (f.int "db-max-idle-conns"))
          vars.database_max_idle_conns
  pub database_conn_max_idle_time :
      r.database.conn_max_idle_time
      ≡ assign
          (if given "db-conn-max-idle-time" f.visited
            then f.duration "db-conn-max-idle-time"
            else (assign_func defaults.database.conn_max_idle_time file.database_conn_max_idle_time
                s.parse_duration).0)
          vars.database_conn_max_idle_time
  pub database_conn_max_lifetime :
      r.database.conn_max_lifetime
      ≡ assign
          (if given "db-conn-max-lifetime" f.visited
            then f.duration "db-conn-max-lifetime"
            else (assign_func defaults.database.conn_max_lifetime file.database_conn_max_lifetime
                s.parse_duration).0)
          vars.database_conn_max_lifetime
  pub database_ping_timeout :
      r.database.ping_timeout
      ≡ assign
          (if given "db-ping-timeout" f.visited
            then f.duration "db-ping-timeout"
            else (assign_func defaults.database.ping_timeout file.database_ping_timeout
                s.parse_duration).0)
          vars.database_ping_timeout
