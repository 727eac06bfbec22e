-- ===== src/Config/Common.antt =====
-- internal/config/common: setting a field where a source gives it, the path of the JSON file, flag
-- bindings, and intervals. Go's int is an int64 here; `time.ParseDuration` is an argument.
use Prim.Native.Nat.{◌/◌}
use rtmetrics.Base.{
  String, Bool, true, false, Option, none, some, List, [], ◌∷◌, if◌then◌else◌, ◌==◌, is_some, codes,
  nat_eq, ◌+◌, ◌-◌,
}
use rtmetrics.Base.Int64.{ℤ, pos, negsuc, parse_int, signed}
use rtmetrics.Base.GoMap.{lookup}

-- Assign: *dest = *src where src is not nil.
unfoldable pub assign {ℓ} : {T : Type ℓ} → T → Option T → T
assign dest none = dest
assign dest (some v) = v

-- AssignFunc: the new value of *dest, and whether the conversion failed.
unfoldable pub assign_func {ℓ κ} :
    {S : Type ℓ} {D : Type κ} → D → Option S → (S → Option D) → D × Bool
assign_func dest none conv = (dest, false)
assign_func dest (some s) conv = elim (conv s) [ none ↦ (dest, true) | some v ↦ (v, false) ]

-- ResolveConfigPath: a CONFIG that is set and not empty wins over the flag.
unfoldable pub resolve_config_path : Option String → String → String
resolve_config_path none flag_path = flag_path
resolve_config_path (some v) flag_path = if v == "" then flag_path else v

-- FlagPassed: is one of the names among the flags given on the command line?
unfoldable pub flag_passed : List (String × Unit {0}) → List String → Bool
flag_passed visited [] = false
flag_passed visited (name ∷ names) =
    let rest = flag_passed visited names in if is_some (lookup name visited) then true else rest

-- ApplyVisited: the binding of every flag that was given runs on the configuration. `bindings` is
-- the map `apply`, a closure being a function on the configuration.
unfoldable pub apply_visited {ℓ} : {C : Type ℓ} → List (String × (C → C)) → List String → C → C
apply_visited bindings [] c = c
apply_visited bindings (name ∷ visited) c = elim (lookup name bindings) [
  | none ↦ apply_visited bindings visited c
  | some set ↦ apply_visited bindings visited (set c)
]

-- int(d / time.Second): division toward zero
unfoldable pub to_seconds : ℤ → ℤ
to_seconds (pos n) = pos (n / 1000000000)
to_seconds (negsuc n) = let q = (n + 1) / 1000000000 in if nat_eq q 0 then pos 0 else negsuc (q - 1)

-- ParseIntervalSeconds; `parse_duration` is time.ParseDuration, in nanoseconds.
unfoldable pub parse_interval_seconds : (String → Option ℤ) → String → Option ℤ
unfolding to_seconds
parse_interval_seconds parse_duration s = if s == "" then none else elim (parse_duration s) [
  | some d ↦ some (to_seconds d)
  | none ↦ elim (parse_int (codes s)) [ none ↦ none | some n ↦ some (signed n) ]
]
