-- ===== src/Reset/Fits.antt =====
-- The values of a type, and the variables that a path stands for (cmd/reset/generate.go).
use rtmetrics.Base.{
  ℕ, ◌≡◌, List, [], ◌∷◌, String, Bool, true, false, Option, none, some, if◌then◌else◌, ◌==◌,
}
use rtmetrics.Base.GoMap.{lookup}
use rtmetrics.Reset.{
  Expr, ident, star, slice, array, map_type, interface_type, chan_type, func_type, struct_type,
  selector, index, paren, Place, unwrap,
}
use rtmetrics.Reset.Semantics.{
  Kind, boolean, number, text, face, Value, basic, sliced, mapped, null, no_iface, ref, arr, handle,
  object, iface, Values, no_values, more, State, read, write,
}

pub data IsBasic (k : Kind) : Value → Type 0 where
  of_basic : (n : ℕ) → IsBasic k (basic k n)

pub data IsObject : Value → Type 0 where
  of_object : (m : Bool) (n : ℕ) → IsObject (object m n)

pub data IsHandle : Value → Type 0 where
  of_handle : (b : Bool) → IsHandle (handle b)

pub data IsIface : Value → Type 0 where
  of_no_iface : IsIface no_iface
  of_iface : (m : Bool) (n : ℕ) → IsIface (iface m n)

pub data IsSliced : Value → Type 0 where
  of_sliced : (n : ℕ) → IsSliced (sliced n)

pub data IsMapped : Value → Type 0 where
  of_mapped : (n : ℕ) → IsMapped (mapped n)

abbrev pub is_basic : Value → Bool
is_basic (basic k n) = true
is_basic v = false

-- A pointer to a value of a predeclared type, or of another one.
pub data IsPointer : Option Kind → Value → Type 0 where
  of_null : (k : Option Kind) → IsPointer k null
  to_basic : (k : Kind) (n : ℕ) → IsPointer (some k) (ref (basic k n))
  to_other : (v : Value) → is_basic v ≡ false → IsPointer none (ref v)

abbrev pub IsNamed : Option Kind → Value → Type 0
IsNamed (some k) v = IsBasic k v
IsNamed none v = IsObject v

pub data AllValues (P : Value → Type 0) : Values → Type 0 where
  all_none : AllValues P no_values
  all_more : (v : Value) (vs : Values) → P v → AllValues P vs → AllValues P (more v vs)

pub data IsArray (P : Value → Type 0) : Value → Type 0 where
  of_arr : (vs : Values) → AllValues P vs → IsArray P (arr vs)

-- The predeclared types.
abbrev pub kinds : List (String × Kind)
kinds =
    ("bool", boolean)
    ∷ ("int", number)
    ∷ ("int8", number)
    ∷ ("int16", number)
    ∷ ("int32", number)
    ∷ ("int64", number)
    ∷ ("uint", number)
    ∷ ("uint8", number)
    ∷ ("uint16", number)
    ∷ ("uint32", number)
    ∷ ("uint64", number)
    ∷ ("uintptr", number)
    ∷ ("float32", number)
    ∷ ("float64", number)
    ∷ ("complex64", number)
    ∷ ("complex128", number)
    ∷ ("byte", number)
    ∷ ("rune", number)
    ∷ ("string", text)
    ∷ ("error", face)
    ∷ ("any", face)
    ∷ []

abbrev pub pointee_kind : Expr → Option Kind
pointee_kind (ident n) = lookup n kinds
pointee_kind t = none

-- `v` is a value of the type.
unfoldable pub Fits : Expr → Value → Type 0
Fits (paren t) v = Fits t v
Fits (ident n) v = IsNamed (lookup n kinds) v
Fits (star t) v = IsPointer (pointee_kind (unwrap t)) v
Fits (slice t) v = IsSliced v
Fits (array t) v = IsArray (Fits t) v
Fits map_type v = IsMapped v
Fits interface_type v = IsIface v
Fits chan_type v = IsHandle v
Fits func_type v = IsHandle v
Fits (selector x s) v =
    if x == "unsafe" then (if s == "Pointer" then IsHandle v else IsObject v) else IsObject v
Fits (index t) v = IsObject v
Fits struct_type v = IsObject v

-- An array whose elements are arrays.
unfoldable pub is_array : Expr → Bool
is_array (array t) = true
is_array (paren t) = is_array t
is_array t = false

unfoldable pub is_nested : Expr → Bool
unfolding is_array
is_nested (array t) = is_array t
is_nested (paren t) = is_nested t
is_nested t = false

-- The path stands for a variable that holds `v`; writing `w` to it leaves `upd w`.
pub record Spot (p : Place) (i : Option ℕ) (s : State) (v : Value) (upd : Value → State)
    : Type 0 where
  pub reads : read p i s ≡ some v
  pub writes : (w : Value) → write p w i s ≡ some (upd w)
  pub same : upd v ≡ s
