-- ===== src/Database.antt =====
-- internal/database/database.go: the settings of the connection pool, and opening it. sql.Open, the
-- setters, PingContext and Close are calls of a connector.
pub mod Bounds
use rtmetrics.Base.{String, ◌≡◌, Bool, true, false, Option, none, some, if◌then◌else◌}
use rtmetrics.Base.Int64.{ℤ, pos, leb_ℤ}
use rtmetrics.Repository.{Error, Result, ok, err}
use rtmetrics.Config.Server.{DatabaseConfig, default_database}

-- normalized; a nil *Config is `none`.
unfoldable pub normalized : Option DatabaseConfig → DatabaseConfig
normalized none = default_database
normalized (some c) =
    let open_conns =
      if leb_ℤ c.max_open_conns (pos 0)
      then default_database.max_open_conns
      else c.max_open_conns in
    let idle_conns =
      if leb_ℤ c.max_idle_conns (pos 0)
      then default_database.max_idle_conns
      else c.max_idle_conns in
    record {
      max_open_conns = open_conns;
      max_idle_conns = if leb_ℤ idle_conns open_conns then idle_conns else open_conns;
      conn_max_idle_time =
          if leb_ℤ (pos 0) c.conn_max_idle_time then c.conn_max_idle_time else pos 0;
      conn_max_lifetime = if leb_ℤ (pos 0) c.conn_max_lifetime then c.conn_max_lifetime else pos 0;
      ping_timeout =
          if leb_ℤ c.ping_timeout (pos 0) then default_database.ping_timeout else c.ping_timeout;
    }

pub record Connector (D : Type 0) : Type 0 where
  pub open_dsn : String → Result D
  pub set_max_open_conns : ℤ → D → D
  pub set_max_idle_conns : ℤ → D → D
  pub set_conn_max_idle_time : ℤ → D → D
  pub set_conn_max_lifetime : ℤ → D → D
  -- With the timeout of the context.
  pub ping : ℤ → D → Option Error × D
  pub close_db : D → D

module _ {D : Type 0} (c : Connector D) where
  -- The pool with its settings.
  abbrev pub configured : DatabaseConfig → D → D
  configured cfg d = c.set_conn_max_lifetime cfg.conn_max_lifetime (
      c.set_conn_max_idle_time cfg.conn_max_idle_time
        (c.set_max_idle_conns cfg.max_idle_conns (c.set_max_open_conns cfg.max_open_conns d)))

  -- After the ping, with the pool that is closed on an error.
  abbrev pub pinged : Option Error × D → Result D × D
  pinged (none, d) = (ok d, d)
  pinged (some e, d) = (err e, c.close_db d)

  abbrev pub opened : DatabaseConfig → Result D → Result D
  opened cfg (err e) = err e
  opened cfg (ok d) = (pinged (c.ping cfg.ping_timeout (configured cfg d))).0

  -- New
  unfoldable pub new : String → Option DatabaseConfig → Result D
  unfolding normalized
  new dsn cfg = opened (normalized cfg) (c.open_dsn dsn)
