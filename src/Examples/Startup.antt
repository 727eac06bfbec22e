-- ===== src/Examples/Startup.antt =====
-- The theorems on the start of the server at concrete inputs.
use rtmetrics.Base.{
  ◌≡◌, ◌↔◌, refl, inr, String, true, false, none, some, [], ◌∷◌, ◌==◌, if◌then◌else◌, eq_iff, arith,
}
use rtmetrics.Base.Int64.{pos, negsuc}
use rtmetrics.Base.GoMap.{empty, lookup}
use rtmetrics.Repository.{ok, err, is_ok, other, net_error}
use rtmetrics.Storage.{new}
use rtmetrics.Config.Common.{assign, assign_func, resolve_config_path, apply_visited}
use rtmetrics.Config.Server.{
  ServerConfig, DatabaseConfig, FileConfig, defaults, default_database, overlay_file,
  apply_store_file_env,
}
use rtmetrics.Config.Parse.{Flags, Sources, parse, with_file, apply_file}
use rtmetrics.Config.Parse.Sourced.{Vars, Overlaid, Layered, Read, empty_file}
use rtmetrics.Config.Parse.Precedence.{parse-Layered}
use rtmetrics.Database.{normalized}
use rtmetrics.Database.Bounds.{IsBounded, normalized-IsBounded}
use rtmetrics.Server.{Server}
use rtmetrics.Server.Startup.{Outside, run, parse_cidr, private_key, grpc_server}
use rtmetrics.Server.Startup.Errors.{Broken, run_fails_iff}
use rtmetrics.Examples.Toolkit.{toy_platform, sync_config}

-- More idle connections than open ones, and a negative lifetime.
abbrev odd_database : DatabaseConfig
odd_database = record default_database {
  max_open_conns = pos 3;
  max_idle_conns = pos 20;
  conn_max_lifetime = negsuc 4;
}

normalized-IsBounded_example :
    IsBounded (normalized (some odd_database))
    × (normalized (some (normalized (some odd_database))) ≡ normalized (some odd_database))
normalized-IsBounded_example = normalized-IsBounded (some odd_database)

normalized_test : (normalized (some odd_database)).max_idle_conns ≡ pos 3
unfolding normalized
normalized_test = refl

-- A network is its name; no database answers, no file opens, and no key is there.
abbrev nothing_there : Outside (Unit {0}) String
nothing_there = record {
  parse_cidr = λ s. if s == "10.0.0.0/8" then ok s else err (other "CIDR");
  connector = record {
    open_dsn = λ dsn. err net_error;
    set_max_open_conns = λ n d. d;
    set_max_idle_conns = λ n d. d;
    set_conn_max_idle_time = λ n d. d;
    set_conn_max_lifetime = λ n d. d;
    ping = λ t d. (none, d);
    close_db = λ d. d;
  };
  migrations = record { sub = none; provider = none; up = λ d. (none, d) };
  opens_file = λ path. false;
  load_private_key = λ path. err (other "no such file");
  listen = λ addr. none;
  credentials = λ cert key. some (other "no such file");
}

abbrev keyed_config : ServerConfig
keyed_config = record sync_config { crypto_key = "key.pem"; trusted_subnet = "10.0.0.0/8" }

abbrev fresh : Server
fresh = record { mem = new; disk = empty; calls = [] }

run_fails_iff_example :
    (is_ok (run nothing_there toy_platform true keyed_config fresh) ≡ false)
    ↔ Broken nothing_there keyed_config
run_fails_iff_example = run_fails_iff nothing_there keyed_config toy_platform true fresh

-- An unreachable database and a missing audit file do not stop the server.
abbrev unlucky_config : ServerConfig
unlucky_config = record sync_config { database_dsn = "postgres://db"; audit_file = "/audit.log" }

unlucky_test : is_ok (run nothing_there toy_platform true unlucky_config fresh) ≡ true
unfolding run parse_cidr private_key grpc_server
unlucky_test = refl

-- The file restores and names a path, the flag -r=false is given, and ADDRESS is set.
abbrev some_file : FileConfig
some_file = record empty_file { restore = some true; store_file = some "/data/metrics.json" }

abbrev some_flags : Flags
some_flags = record {
  visited = "c" ∷ "r" ∷ [];
  text = λ n. "";
  int = λ n. pos 0;
  bool = λ n. false;
  duration = λ n. pos 0;
  config_path = "server.json";
}

abbrev some_vars : Vars
some_vars = record {
  address = some "env:7070";
  store_interval = none;
  file_storage_path = none;
  restore = none;
  database_dsn = none;
  key = none;
  crypto_key = none;
  audit_file = none;
  audit_url = none;
  trusted_subnet = none;
  grpc_address = none;
  grpc_cert = none;
  grpc_key = none;
  database_max_open_conns = none;
  database_max_idle_conns = none;
  database_conn_max_idle_time = none;
  database_conn_max_lifetime = none;
  database_ping_timeout = none;
}

abbrev set_address : ServerConfig → ServerConfig
set_address c = record c { http_server = record c.http_server { address = "env:7070" } }

abbrev some_sources : Sources
some_sources = record {
  parse_flags = ok some_flags;
  load_json = λ path. if path == "server.json" then ok some_file else err (other "no such file");
  parse_duration = λ d. none;
  parse_env = λ c. ok (set_address c);
  config_var = none;
  file_storage_path_var = none;
  store_file_var = none;
}

some_vars-Overlaid : (c d : ServerConfig) → some_sources.parse_env c ≡ ok d → Overlaid some_vars c d
unfolding assign
some_vars-Overlaid c d eq =
    let same : set_address c ≡ d = cc in
    record {
      address = rw (← same) refl;
      store_interval = rw (← same) refl;
      file_storage_path = rw (← same) refl;
      restore = rw (← same) refl;
      database_dsn = rw (← same) refl;
      key = rw (← same) refl;
      crypto_key = rw (← same) refl;
      audit_file = rw (← same) refl;
      audit_url = rw (← same) refl;
      trusted_subnet = rw (← same) refl;
      grpc_address = rw (← same) refl;
      grpc_cert = rw (← same) refl;
      grpc_key = rw (← same) refl;
      database_max_open_conns = rw (← same) refl;
      database_max_idle_conns = rw (← same) refl;
      database_conn_max_idle_time = rw (← same) refl;
      database_conn_max_lifetime = rw (← same) refl;
      database_ping_timeout = rw (← same) refl;
    }

some_file-Read : Read some_sources some_flags some_file
unfolding resolve_config_path
some_file-Read = inr (ground (arith, eq_iff "server.json" ""), refl)

abbrev some_result : ServerConfig
some_result = record defaults {
  http_server = record defaults.http_server { address = "env:7070" };
  file_storage_path = "/data/metrics.json";
}

parsed : parse some_sources ≡ ok some_result
unfolding parse with_file apply_file overlay_file resolve_config_path apply_visited
    apply_store_file_env assign assign_func lookup
parsed = refl

parse-Layered_example : Layered some_sources some_vars some_flags some_file some_result
parse-Layered_example =
    parse-Layered some_sources some_vars some_flags some_file some_result some_vars-Overlaid refl
      some_file-Read parsed
