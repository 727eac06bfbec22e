-- ===== src/Proto/RoundTrip.antt =====
-- What the conversions of internal/proto/convert.go keep.
use rtmetrics.Base.{
  ℕ, String, ◌≡◌, ◌≢◌, ◌⊎◌, inl, inr, refl, some, List, [], ◌∷◌, map, All, arith, eq_iff, ◌==◌,
  false,
}
use rtmetrics.Model.{Float64, Metrics, new_counter, new_gauge}
use rtmetrics.Proto.{to_model, from_model}

-- A metric as NewCounter or NewGauge makes it, with a name.
abbrev pub IsNamed : Metrics → Type 0
IsNamed m =
    (id : String) × (id ≢ "")
    × (((delta : ℕ) × (m ≡ new_counter id delta)) ⊎ ((value : Float64) × (m ≡ new_gauge id value)))

counter_back :
    (id : String) (delta : ℕ) (ms : List Metrics)
    → id ≢ ""
    → to_model (map some (from_model ms)) ≡ ms
    → to_model (map some (from_model (new_counter id delta ∷ ms))) ≡ new_counter id delta ∷ ms
unfolding to_model from_model new_counter
counter_back id delta ms named rest =
    let test : (id == "") ≡ false = ground (arith, eq_iff id "") in rw (test, rest) refl

gauge_back :
    (id : String) (value : Float64) (ms : List Metrics)
    → id ≢ ""
    → to_model (map some (from_model ms)) ≡ ms
    → to_model (map some (from_model (new_gauge id value ∷ ms))) ≡ new_gauge id value ∷ ms
unfolding to_model from_model new_gauge
gauge_back id value ms named rest =
    let test : (id == "") ≡ false = ground (arith, eq_iff id "") in rw (test, rest) refl

-- A batch of named metrics, each as NewCounter or NewGauge makes it, comes out of FromModel and
-- ToModel as it was.
pub to_model-from_model :
    (ms : List Metrics) → All IsNamed ms → to_model (map some (from_model ms)) ≡ ms
unfolding to_model from_model
to_model-from_model [] h = refl
to_model-from_model (m ∷ ms) ((id, named, inl (delta, e)), hs) =
    rw e (counter_back id delta ms named (to_model-from_model ms hs))
to_model-from_model (m ∷ ms) ((id, named, inr (value, e)), hs) =
    rw e (gauge_back id value ms named (to_model-from_model ms hs))
