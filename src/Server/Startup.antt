-- ===== src/Server/Startup.antt =====
-- The start of run (cmd/server/main.go): the store that the server writes to, the audit observers,
-- keys, and the listener for gRPC; with ParseCIDR of internal/realip and New of
-- internal/storage/postgres. What these call in turn is an argument.

pub mod Errors
use rtmetrics.Base.{
  ℕ, zero, suc, String, Bool, true, false, not, ◌&&◌, Option, none, some, List, if◌then◌else◌, ◌==◌,
  nat_eq, is_some,
}
use rtmetrics.Model.{Float64, Metrics}
use rtmetrics.Repository.{Error, Result, ok, err, wrap, MetricsRepository}
use rtmetrics.Config.Server.{ServerConfig}
use rtmetrics.Audit.{Subject, new_subject, subscribe}
use rtmetrics.Crypto.{Rsa}
use rtmetrics.Storage
use rtmetrics.Storage.Postgres
use rtmetrics.Storage.Postgres.{Migrations}
use rtmetrics.Database
use rtmetrics.Database.{Connector}
use rtmetrics.Server.{Server, Platform, is_zero, read_only, restore_if_needed, sync_repository}

-- What run gets from outside: net.ParseCIDR, the database, whether os.OpenFile opens the audit file,
-- rsaenc.LoadPrivateKey, net.Listen and grpctls.ServerCredentials.
pub record Outside (D Network : Type 0) : Type 0 where
  pub parse_cidr : String → Result Network
  pub connector : Connector D
  pub migrations : Migrations D
  pub opens_file : String → Bool
  pub load_private_key : String → Result Rsa
  pub listen : String → Option Error
  pub credentials : String → String → Option Error

-- The repository that run chose, with its state.
pub data Store (D : Type 0) : Type 0 where
  in_postgres : D → Store D
  in_sync in_periodic in_memory : Server → Store D

-- What the server runs with. A nil value is `none`.
pub record Started (D Network : Type 0) : Type 0 where
  pub store : Store D
  pub pinger : Bool
  pub auditor : Option Subject
  pub private_key : Option Rsa
  pub trusted : Option Network
  pub grpc : Bool

-- newAuditor. Observers are named: 0 is the file, 1 the URL.
abbrev pub with_file : Bool → String → Subject × ℕ → Subject × ℕ
with_file opens file (s, n) =
    if file == "" then (s, n) else if opens then (subscribe (some 0) s, suc n) else (s, n)

abbrev pub with_url : String → Subject × ℕ → Subject × ℕ
with_url url (s, n) = if url == "" then (s, n) else (subscribe (some 1) s, suc n)

-- `if n == 0 { subject.Close(); return nil }`
abbrev pub unless_none : Subject × ℕ → Option Subject
unless_none (s, n) = if nat_eq n 0 then none else some s

unfoldable pub new_auditor : (String → Bool) → String → String → Option Subject
new_auditor opens_file file url =
    if file == "" && url == ""
    then none
    else unless_none (with_url url (with_file (opens_file file) file (new_subject, 0)))

module _ {D Network : Type 0} (o : Outside D Network) where
  -- realip.ParseCIDR
  abbrev pub network_of : Result Network → Result (Option Network)
  network_of (ok n) = ok (some n)
  network_of (err e) = err (wrap "invalid trusted_subnet" e)

  unfoldable pub parse_cidr : String → Result (Option Network)
  parse_cidr cidr = if cidr == "" then ok none else network_of (o.parse_cidr cidr)

  -- The private key, where one is configured.
  abbrev pub key_of : Result Rsa → Result (Option Rsa)
  key_of (ok k) = ok (some k)
  key_of (err e) = err e

  unfoldable pub private_key : ServerConfig → Result (Option Rsa)
  private_key cfg =
      if cfg.crypto_key == "" then ok none else key_of (o.load_private_key cfg.crypto_key)

  -- net.Listen, then ServerCredentials; whether a gRPC server runs.
  abbrev pub listening : Option Error → Option Error → Result Bool
  listening (some e) creds = err e
  listening none (some e) = err e
  listening none none = ok true

  unfoldable pub grpc_server : ServerConfig → Result Bool
  grpc_server cfg =
      if cfg.grpc_address == ""
      then ok false
      else listening (o.listen cfg.grpc_address) (o.credentials cfg.grpc_cert cfg.grpc_key)

  -- An error is logged, and the pool stays nil.
  abbrev pub or_nil : Result D → Option D
  or_nil (ok d) = some d
  or_nil (err e) = none

  unfoldable pub database : ServerConfig → Option D
  database cfg =
      if cfg.database_dsn == ""
      then none
      else or_nil (Database.new o.connector cfg.database_dsn (some cfg.database))

  module _ (p : Platform) where
    -- The stores over the memory.
    unfoldable pub file_store : ServerConfig → Server → Store D
    file_store cfg s =
        if not (cfg.file_storage_path == "") && is_zero cfg.store_interval
        then in_sync s
        else if not (cfg.file_storage_path == "")
        then in_periodic s
        else in_memory s

    -- `readable` is false where the snapshot file is there and cannot be read.
    abbrev pub fallback : Bool → ServerConfig → Server → Store D
    fallback readable cfg s = file_store cfg (restore_if_needed p readable cfg s)

    abbrev pub after_new : Bool → ServerConfig → Server → Option Error × D → Store D
    after_new readable cfg s (none, d) = in_postgres d
    after_new readable cfg s (some e, d) = fallback readable cfg s

    -- PostgreSQL, else the file, else the memory.
    unfoldable pub choose_store : Bool → ServerConfig → Option D → Server → Store D
    choose_store readable cfg none s = fallback readable cfg s
    choose_store readable cfg (some d) s = after_new readable cfg s (Postgres.new o.migrations d)

    -- run, up to the start of the HTTP server; `s` is storage.New over the disk.
    unfoldable pub run : Bool → ServerConfig → Server → Result (Started D Network)
    run readable cfg s = elim (parse_cidr cfg.trusted_subnet) [
      | err e ↦ err e
      | ok trusted ↦ elim (private_key cfg) [
        | err e ↦ err e
        | ok key ↦ elim (grpc_server cfg) [
          | err e ↦ err e
          | ok grpc ↦ ok (record {
            store = choose_store readable cfg (database cfg) s;
            pinger = is_some (database cfg);
            auditor = new_auditor o.opens_file cfg.audit_file cfg.audit_url;
            private_key = key;
            trusted = trusted;
            grpc = grpc;
          })
        ]
      ]
    ]

module _ {D : Type 0} where
  -- A call of the repository behind the interface.
  abbrev pub kept : {A S : Type 0} → (S → Store D) → Result A × S → Result A × Store D
  kept store p = (p.0, store p.1)

  abbrev pub dispatch :
      {A : Type 0}
      → (D → Result A × D)
      → (Server → Result A × Server)
      → (Server → Result A × Server)
      → Store D
      → Result A × Store D
  dispatch pg sync mem (in_postgres d) = kept in_postgres (pg d)
  dispatch pg sync mem (in_sync s) = kept in_sync (sync s)
  dispatch pg sync mem (in_periodic s) = kept in_periodic (mem s)
  dispatch pg sync mem (in_memory s) = kept in_memory (mem s)

  module _ (pg : MetricsRepository D) (p : Platform) (cfg : ServerConfig) where
    -- memSt as the repository of a server.
    abbrev pub mem_of : MetricsRepository Server
    mem_of = record {
      save_counter = λ name value s. read_only p s (Storage.save_counter name value s.mem);
      save_gauge = λ name value s. read_only p s (Storage.save_gauge name value s.mem);
      get_counter = λ name s. read_only p s (Storage.get_counter name s.mem);
      get_gauge = λ name s. read_only p s (Storage.get_gauge name s.mem);
      get_all_counters = λ s. read_only p s (Storage.get_all_counters p.ints p.floats s.mem);
      get_all_gauges = λ s. read_only p s (Storage.get_all_gauges p.ints p.floats s.mem);
      save_batch = λ ms s. read_only p s (Storage.save_batch ms s.mem);
    }

    -- The repository that run hands to service.New.
    abbrev pub store_repository : MetricsRepository (Store D)
    store_repository =
        let sync = sync_repository p cfg in
        record {
          save_counter = λ name value.
              dispatch (pg.save_counter name value) (sync.save_counter name value)
                (mem_of.save_counter name value);
          save_gauge = λ name value.
              dispatch (pg.save_gauge name value) (sync.save_gauge name value)
                (mem_of.save_gauge name value);
          get_counter = λ name.
              dispatch (pg.get_counter name) (sync.get_counter name) (mem_of.get_counter name);
          get_gauge =
              λ name. dispatch (pg.get_gauge name) (sync.get_gauge name) (mem_of.get_gauge name);
          get_all_counters =
              dispatch pg.get_all_counters sync.get_all_counters mem_of.get_all_counters;
          get_all_gauges = dispatch pg.get_all_gauges sync.get_all_gauges mem_of.get_all_gauges;
          save_batch =
              λ ms. dispatch (pg.save_batch ms) (sync.save_batch ms) (mem_of.save_batch ms);
        }
