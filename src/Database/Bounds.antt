-- ===== src/Database/Bounds.antt =====
-- The bounds of the pool settings (normalized of internal/database/database.go).
use rtmetrics.Base.{◌≡◌, refl, true, false, Option, none, some, arith}
use rtmetrics.Base.Int64.{ℤ, pos, leb_ℤ, ◌≤ℤ◌}
use rtmetrics.Config.Server.{DatabaseConfig}
use rtmetrics.Database.{normalized}

-- Settings that database/sql takes as they are: at least one connection, no more idle ones than open
-- ones, no negative duration, and a timeout for the ping.
pub record IsBounded (c : DatabaseConfig) : Type 0 where
  pub some_open : pos 1 ≤ℤ c.max_open_conns
  pub some_idle : pos 1 ≤ℤ c.max_idle_conns
  pub idle_le_open : c.max_idle_conns ≤ℤ c.max_open_conns
  pub idle_time : pos 0 ≤ℤ c.conn_max_idle_time
  pub lifetime : pos 0 ≤ℤ c.conn_max_lifetime
  pub ping_timeout : pos 1 ≤ℤ c.ping_timeout

bounds_of : (c : Option DatabaseConfig) → IsBounded (normalized c)
unfolding normalized
bounds_of none = record {
  some_open = omega arith;
  some_idle = omega arith;
  idle_le_open = omega arith;
  idle_time = omega arith;
  lifetime = omega arith;
  ping_timeout = omega arith;
}
bounds_of (some c) = record {
  some_open = ground arith;
  some_idle = ground arith;
  idle_le_open = ground arith;
  idle_time = ground arith;
  lifetime = ground arith;
  ping_timeout = ground arith;
}

positive : (x : ℤ) → pos 1 ≤ℤ x → leb_ℤ x (pos 0) ≡ false
positive x h = ground arith

within : (x y : ℤ) → x ≤ℤ y → leb_ℤ x y ≡ true
within x y h = ground arith

-- Settings within the bounds are kept.
normalized-fixed : (c : DatabaseConfig) → IsBounded c → normalized (some c) ≡ c
unfolding normalized
normalized-fixed c h =
    rw
      (
        positive c.max_open_conns h.some_open,
        positive c.max_idle_conns h.some_idle,
        within c.max_idle_conns c.max_open_conns h.idle_le_open,
        within (pos 0) c.conn_max_idle_time h.idle_time,
        within (pos 0) c.conn_max_lifetime h.lifetime,
        positive c.ping_timeout h.ping_timeout,
      )
      refl

-- Whatever the configuration says, nil included, the pool gets settings within the bounds: at least one
-- open and one idle connection, no more idle ones than open ones, no negative duration and a positive
-- timeout for the ping; and normalizing them again changes nothing.
pub normalized-IsBounded :
    (c : Option DatabaseConfig)
    → IsBounded (normalized c) × (normalized (some (normalized c)) ≡ normalized c)
normalized-IsBounded c = (bounds_of c, normalized-fixed (normalized c) (bounds_of c))
