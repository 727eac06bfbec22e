-- ===== src/Config/Parse/Precedence.antt =====
-- The order of the sources of the server's configuration (parse of internal/config/server/config.go):
-- defaults, JSON file, flags, environment.
use rtmetrics.Base.{
  String, ◌≡◌, ◌⊎◌, inl, inr, refl, sym, ◌∙◌, ap, Bool, true, false, Option, none, some,
  if◌then◌else◌, eq_iff, arith, is_some,
}
use rtmetrics.Base.GoMap.{lookup}
use rtmetrics.Repository.{Result, ok, err}
use rtmetrics.Config.Common.{assign, assign_func, apply_visited, resolve_config_path}
use rtmetrics.Config.Server.{ServerConfig, FileConfig, defaults, overlay_file, apply_store_file_env}
use rtmetrics.Config.Parse.{
  Flags, Sources, bindings, unless_bad, overlaid, apply_file, with_file, with_env, with_flags,
  after_flags, parse,
}
use rtmetrics.Config.Parse.Layers.{given, Sets, field-apply_visited}
use rtmetrics.Config.Parse.Sourced.{Vars, Overlaid, Read, stored_path, Layered}

-- With the file laid over the defaults.
abbrev base_of : Sources → FileConfig → ServerConfig
base_of s file = (overlay_file s.parse_duration defaults file).0

unless_bad-ok :
    (s : Sources) (p : ServerConfig × Bool) (c : ServerConfig) → unless_bad s p ≡ ok c → c ≡ p.0
unless_bad-ok s (d, true) c eq = absurd (cc (eq))
unless_bad-ok s (d, false) c eq = cc (eq)

chosen_file :
    (s : Sources) (b : Bool) (path : String) (c : ServerConfig)
    → (if b then ok defaults else apply_file s defaults path) ≡ ok c
    → ((b ≡ true) × (c ≡ defaults)) ⊎ ((b ≡ false) × (apply_file s defaults path ≡ ok c))
chosen_file s true path c eq = inl (refl, cc (eq))
chosen_file s false path c eq = inr (refl, eq)

with_file-base :
    (s : Sources) (f : Flags) (file : FileConfig) (c : ServerConfig)
    → Read s f file
    → with_file s f ≡ ok c
    → c ≡ base_of s file
unfolding with_file apply_file overlay_file
with_file-base s f file c (inl (none_given, empty)) eq =
    elim (chosen_file s _ (resolve_config_path s.config_var f.config_path) c eq) [
      | inl (is, same) ↦ rw (same, empty, assign, assign_func) refl
      | inr (isnt, later) ↦ absurd (
          ground
            (arith, eq_iff (resolve_config_path s.config_var f.config_path) "", none_given, isnt))
    ]
with_file-base s f file c (inr (given_, loaded)) eq =
    elim (chosen_file s _ (resolve_config_path s.config_var f.config_path) c eq) [
      | inl (is, same) ↦
          absurd
            (ground (arith, eq_iff (resolve_config_path s.config_var f.config_path) "", given_, is))
      | inr (isnt, later) ↦
          let overlay : unless_bad s (overlay_file s.parse_duration defaults file) ≡ ok c =
            ap (overlaid s defaults) (sym loaded) ∙ later in
          unless_bad-ok s (overlay_file s.parse_duration defaults file) c overlay
    ]

with_env-ok :
    (s : Sources) (c : Result ServerConfig) (r : ServerConfig)
    → with_env s c ≡ ok r
    → (d : ServerConfig) × (c ≡ ok d)
      × (r ≡ apply_store_file_env s.file_storage_path_var s.store_file_var d)
with_env-ok s (err e) r eq = absurd (cc (eq))
with_env-ok s (ok d) r eq = (d, refl, cc (eq))

-- What parse returns, step by step.
with_flags-ok :
    (s : Sources) (f : Flags) (base : Result ServerConfig) (r : ServerConfig)
    → with_flags s f base ≡ ok r
    → (b : ServerConfig) × (d : ServerConfig) × (base ≡ ok b)
      × (s.parse_env (apply_visited (bindings f) f.visited b) ≡ ok d)
      × (r ≡ apply_store_file_env s.file_storage_path_var s.store_file_var d)
with_flags-ok s f (err e) r eq = absurd (cc (eq))
with_flags-ok s f (ok b) r eq =
    let (d, parsed, last) =
      with_env-ok s (s.parse_env (apply_visited (bindings f) f.visited b)) r eq in
    (b, d, refl, parsed, last)

store_file_only :
    (path store_file : Option String) (c : ServerConfig)
    → apply_store_file_env path store_file c
      ≡ record c { file_storage_path = (apply_store_file_env path store_file c).file_storage_path }
unfolding apply_store_file_env
store_file_only (some p) v c = refl
store_file_only none none c = refl
store_file_only none (some v) c = refl

stored :
    (s : Sources) (path store_file : Option String) (c : ServerConfig)
    → s.file_storage_path_var ≡ path
    → s.store_file_var ≡ store_file
    → (apply_store_file_env path store_file c).file_storage_path ≡ stored_path s c.file_storage_path
unfolding apply_store_file_env assign
stored s (some p) v c hp hv = rw hp refl
stored s none none c hp hv = rw (hp, hv) refl
stored s none (some v) c hp hv = rw (hp, hv) refl

-- One field through the flags, the environment and what follows.
chain :
    {A : Type 0} (field : ServerConfig → A) (name : String) (v : A) (f : Flags) (env : Option A)
    (low : A) (b d : ServerConfig)
    → Sets field name v (bindings f)
    → is_some (lookup name (bindings f)) ≡ true
    → field d ≡ assign (field (apply_visited (bindings f) f.visited b)) env
    → field b ≡ low
    → field d ≡ assign (if given name f.visited then v else low) env
chain field name v f env low b d sets bound over base =
    over
    ∙ ap (λ x. assign x env) (field-apply_visited field name v (bindings f) f.visited b sets bound)
    ∙ ap (λ x. assign (if given name f.visited then v else x) env) base

-- The configuration comes from four sources, each over the one before: the defaults, the JSON file,
-- the flags given on the command line, and the environment; a flag counts if it is given, whatever its
-- value; and STORE_FILE sets the path of the snapshot where FILE_STORAGE_PATH is not set. This holds
-- of every field that has a flag where parse returns a configuration, the flags parsed to `f`, the
-- file says `file`, and env.Parse sets the fields whose variables are set and no other.
pub parse-Layered :
    (s : Sources) (vars : Vars) (f : Flags) (file : FileConfig) (r : ServerConfig)
    → ((c d : ServerConfig) → s.parse_env c ≡ ok d → Overlaid vars c d)
    → s.parse_flags ≡ ok f
    → Read s f file
    → parse s ≡ ok r
    → Layered s vars f file r
unfolding parse overlay_file lookup
parse-Layered s vars f file r env flags read parsed =
    let (b, d, based, over, last) =
      with_flags-ok s f (with_file s f) r (ap (after_flags s) (sym flags) ∙ parsed) in
    let base = with_file-base s f file b read based in
    let law = env _ d over in
    let kept = last ∙ store_file_only s.file_storage_path_var s.store_file_var d in
    record {
      address =
          ap (λ c. c.http_server.address) kept
          ∙ chain (λ c. c.http_server.address) "a" (f.text "a") f vars.address _ b d (ground arith)
              refl law.address (ap (λ c. c.http_server.address) base);
      store_interval =
          ap (λ c. c.store_interval) kept
          ∙ chain (λ c. c.store_interval) "i" (f.int "i") f vars.store_interval _ b d (ground arith)
              refl law.store_interval (ap (λ c. c.store_interval) base);
      file_storage_path =
          ap (λ c. c.file_storage_path) last
          ∙ stored s s.file_storage_path_var s.store_file_var d refl refl
          ∙ ap (stored_path s) (
              chain (λ c. c.file_storage_path) "f" (f.text "f") f vars.file_storage_path _ b d
                (ground arith) refl law.file_storage_path (ap (λ c. c.file_storage_path) base));
      restore =
          ap (λ c. c.restore) kept
          ∙ chain (λ c. c.restore) "r" (f.bool "r") f vars.restore _ b d (ground arith) refl
              law.restore (ap (λ c. c.restore) base);
      database_dsn =
          ap (λ c. c.database_dsn) kept
          ∙ chain (λ c. c.database_dsn) "d" (f.text "d") f vars.database_dsn _ b d (ground arith)
              refl law.database_dsn (ap (λ c. c.database_dsn) base);
      key =
          ap (λ c. c.key) kept
          ∙ chain (λ c. c.key) "k" (f.text "k") f vars.key _ b d (ground arith) refl law.key
              (ap (λ c. c.key) base);
      crypto_key =
          ap (λ c. c.crypto_key) kept
          ∙ chain (λ c. c.crypto_key) "crypto-key" (f.text "crypto-key") f vars.crypto_key _ b d
              (ground arith) refl law.crypto_key (ap (λ c. c.crypto_key) base);
      audit_file =
          ap (λ c. c.audit_file) kept
          ∙ chain (λ c. c.audit_file) "audit-file" (f.text "audit-file") f vars.audit_file _ b d
              (ground arith) refl law.audit_file (ap (λ c. c.audit_file) base);
      audit_url =
          ap (λ c. c.audit_url) kept
          ∙ chain (λ c. c.audit_url) "audit-url" (f.text "audit-url") f vars.audit_url _ b d
              (ground arith) refl law.audit_url (ap (λ c. c.audit_url) base);
      trusted_subnet =
          ap (λ c. c.trusted_subnet) kept
          ∙ chain (λ c. c.trusted_subnet) "t" (f.text "t") f vars.trusted_subnet _ b d
              (ground arith) refl law.trusted_subnet (ap (λ c. c.trusted_subnet) base);
      grpc_address =
          ap (λ c. c.grpc_address) kept
          ∙ chain (λ c. c.grpc_address) "g" (f.text "g") f vars.grpc_address _ b d (ground arith)
              refl law.grpc_address (ap (λ c. c.grpc_address) base);
      grpc_cert =
          ap (λ c. c.grpc_cert) kept
          ∙ chain (λ c. c.grpc_cert) "grpc-cert" (f.text "grpc-cert") f vars.grpc_cert _ b d
              (ground arith) refl law.grpc_cert (ap (λ c. c.grpc_cert) base);
      grpc_key =
          ap (λ c. c.grpc_key) kept
          ∙ chain (λ c. c.grpc_key) "grpc-key" (f.text "grpc-key") f vars.grpc_key _ b d
              (ground arith) refl law.grpc_key (ap (λ c. c.grpc_key) base);
      database_max_open_conns =
          ap (λ c. c.database.max_open_conns) kept
          ∙ chain (λ c. c.database.max_open_conns) "db-max-open-conns" (f.int "db-max-open-conns") f
              vars.database_max_open_conns _ b d (ground arith) refl law.database_max_open_conns
              (ap (λ c. c.database.max_open_conns) base);
      database_max_idle_conns =
          ap (λ c. c.database.max_idle_conns) kept
          ∙ chain (λ c. c.database.max_idle_conns) "db-max-idle-conns" (f.int "db-max-idle-conns") f
              vars.database_max_idle_conns _ b d (ground arith) refl law.database_max_idle_conns
              (ap (λ c. c.database.max_idle_conns) base);
      database_conn_max_idle_time =
          ap (λ c. c.database.conn_max_idle_time) kept
          ∙ chain (λ c. c.database.conn_max_idle_time) "db-conn-max-idle-time"
              (f.duration "db-conn-max-idle-time") f vars.database_conn_max_idle_time _ b d
              (ground arith) refl law.database_conn_max_idle_time
              (ap (λ c. c.database.conn_max_idle_time) base);
      database_conn_max_lifetime =
          ap (λ c. c.database.conn_max_lifetime) kept
          ∙ chain (λ c. c.database.conn_max_lifetime) "db-conn-max-lifetime"
              (f.duration "db-conn-max-lifetime") f vars.database_conn_max_lifetime _ b d
              (ground arith) refl law.database_conn_max_lifetime
              (ap (λ c. c.database.conn_max_lifetime) base);
      database_ping_timeout =
          ap (λ c. c.database.ping_timeout) kept
          ∙ chain (λ c. c.database.ping_timeout) "db-ping-timeout" (f.duration "db-ping-timeout") f
              vars.database_ping_timeout _ b d (ground arith) refl law.database_ping_timeout
              (ap (λ c. c.database.ping_timeout) base);
    }
