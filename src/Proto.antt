-- ===== src/Proto.antt =====
-- internal/proto/convert.go: metrics in the form of metrics.proto, and back. In proto3 a field that
-- is not set reads as its zero value. A nil *Metric is `none`.
pub mod RoundTrip
use rtmetrics.Base.{ℕ, String, Option, none, some, List, [], ◌∷◌, if◌then◌else◌, ◌==◌, or_else}
use rtmetrics.Model.{Float64, Metrics, counter, gauge}

-- Metric_MType, an open enum
pub data MetricType : Type 0 where
  metric_gauge metric_counter : MetricType
  unrecognized : ℕ → MetricType

pub record Metric : Type 0 where
  pub id : String
  pub mtype : MetricType
  -- an int64
  pub delta : ℕ
  pub value : Float64

-- The float64 zero, whose bits are all zero.
abbrev pub zero_value : Float64
zero_value = record { bits = 0 }

-- The round of the loop of ToModel for an item that is there and has a name.
unfoldable pub model_of : Metric → List Metrics → List Metrics
model_of m rest = elim m.mtype [
  | metric_counter ↦
      record { id = m.id; mtype = counter; delta = some m.delta; value = none; hash = "" } ∷ rest
  | metric_gauge ↦
      record { id = m.id; mtype = gauge; delta = none; value = some m.value; hash = "" } ∷ rest
  | unrecognized n ↦ rest
]

unfoldable pub to_model : List (Option Metric) → List Metrics
unfolding model_of
to_model [] = []
to_model (none ∷ ms) = to_model ms
to_model (some m ∷ ms) = let rest = to_model ms in if m.id == "" then rest else model_of m rest

unfoldable pub from_model : List Metrics → List Metric
from_model [] = []
from_model (m ∷ ms) =
    let rest = from_model ms in
    if m.mtype == counter
    then record { id = m.id; mtype = metric_counter; delta = or_else m.delta 0; value = zero_value }
      ∷ rest
    else if m.mtype == gauge
    then record { id = m.id; mtype = metric_gauge; delta = 0; value = or_else m.value zero_value }
      ∷ rest
    else rest
