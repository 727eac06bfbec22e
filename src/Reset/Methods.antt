-- ===== src/Reset/Methods.antt =====
-- The method that cmd/reset/generate.go writes for a struct resets every field of it.
use Prim.Native.Char.{Char}
use rtmetrics.Base.{
  ◌≡◌, String, Bool, true, false, Option, none, some, List, [], ◌∷◌, ◌++◌, if◌then◌else◌, ◌==◌,
}
use rtmetrics.Base.GoMap.{lookup}
use rtmetrics.Reset.{Expr, field, Stmts, no_stmts, and_then, build_stmts, Field, field_names}
use rtmetrics.Reset.Semantics.{Value, State, reset_value}
use rtmetrics.Reset.Fits.{Fits, is_nested}

-- The fields of the struct, each with its type.
abbrev pub with_type : List String → Expr → List (String × Expr)
with_type [] t = []
with_type (n ∷ ns) t = (n, t) ∷ with_type ns t

unfoldable pub members : List Field → List (String × Expr)
members [] = []
members (f ∷ fs) = with_type (field_names f) f.typ ++ members fs

abbrev pub is_member : String → List (String × Expr) → Bool
is_member n [] = false
is_member n ((k, t) ∷ ms) = if k == n then true else is_member n ms

-- The state has every field, once, with a value of its type; none is an array of arrays.
abbrev pub IsStruct : List (String × Expr) → State → Type 0
IsStruct [] s = Unit
IsStruct ((n, t) ∷ ms) s =
    (is_member n ms ≡ false)
    × ((v : Value) × ((lookup n s ≡ some v) × (Fits t v × (is_nested t ≡ false))))
    × IsStruct ms s

abbrev pub reset_option : Option Value → Option Value
reset_option none = none
reset_option (some v) = some (reset_value v)

-- Each of the fields is reset, and what else the state has is as before.
abbrev pub IsReset : List (String × Expr) → State → State → Type 0
IsReset ms s t =
    (n : String) → lookup n t ≡ (if is_member n ms then reset_option (lookup n s) else lookup n s)

-- The statements for the fields one by one.
members_stmts : String → List (String × Expr) → Stmts
members_stmts recv [] = no_stmts
members_stmts recv ((n, t) ∷ ms) = and_then (build_stmts (field recv n) t) (members_stmts recv ms)
