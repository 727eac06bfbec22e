-- ===== src/Model.antt =====
-- internal/model/metrics.go: the metric that agent and server exchange.
use rtmetrics.Base.{ℕ, String, Option, none, some, ◌≢◌, arith, eq_iff}

-- A float64 is its IEEE 754 bit pattern: the program stores and copies gauge values, and computes
-- with none of them.
pub record Float64 : Type 0 where
  pub bits : ℕ

-- const Counter
abbrev pub counter : String
counter = "counter"

-- const Gauge
abbrev pub gauge : String
gauge = "gauge"

-- A nil pointer is `none`. `delta` is the bit pattern of an int64.
pub record Metrics : Type 0 where
  pub id : String
  pub mtype : String
  pub delta : Option ℕ
  pub value : Option Float64
  pub hash : String

unfoldable pub new_counter : String → ℕ → Metrics
new_counter id delta = record {
  id = id;
  mtype = counter;
  delta = some delta;
  value = none;
  hash = "";
}

unfoldable pub new_gauge : String → Float64 → Metrics
new_gauge id value = record { id = id; mtype = gauge; delta = none; value = some value; hash = "" }

-- The two types are different names.
pub counter-ne-gauge : counter ≢ gauge
counter-ne-gauge = ground (arith, eq_iff counter gauge)
