-- ===== src/Reset/Semantics.antt =====
-- What the statements of a generated method Reset (cmd/reset/generate.go) do to a struct, in Go's
-- semantics, and what Reset is for.
use rtmetrics.Base.{
  ℕ, zero, suc, String, Bool, true, false, Option, none, some, List, [], ◌∷◌, if◌then◌else◌, ◌==◌,
}
use rtmetrics.Base.GoMap.{lookup}
use rtmetrics.Reset.{
  Place, field, at_i, deref, literal, cut, address_of, itself, Stmt, assign, clear, if_not_nil,
  for_range, call_reset, iface_reset, Stmts, no_stmts, stmt,
}

-- The kinds of predeclared types: bool, a number, string, and the interfaces error and any.
pub data Kind : Type 0 where
  boolean number text face : Kind

-- A value of a predeclared type, 0 being its zero value; a nil pointer and one to a variable; a slice and
-- a map by their length; an array; a channel, function or unsafe.Pointer, nil or not; a value of a
-- declared type, with a method Reset or without, 0 being the state that Reset gives; a nil interface and
-- one that holds such a value.
mutual
  pub data Value : Type 0 where
    basic : Kind → ℕ → Value
    sliced mapped : ℕ → Value
    null no_iface : Value
    ref : Value → Value
    arr : Values → Value
    handle : Bool → Value
    object iface : Bool → ℕ → Value

  pub data Values : Type 0 where
    no_values : Values
    more : Value → Values → Values

-- The fields of a struct.
abbrev pub State : Type 0
State = List (String × Value)

abbrev pub elem : Values → ℕ → Option Value
elem no_values i = none
elem (more v vs) zero = some v
elem (more v vs) (suc i) = elem vs i

abbrev pub more_of : Value → Option Values → Option Values
more_of v none = none
more_of v (some vs) = some (more v vs)

abbrev pub set_elem : Values → ℕ → Value → Option Values
set_elem no_values i w = none
set_elem (more v vs) zero w = some (more w vs)
set_elem (more v vs) (suc i) w = more_of v (set_elem vs i w)

abbrev pub size : Values → ℕ
size no_values = 0
size (more v vs) = suc (size vs)

abbrev pub replace : String → Value → State → State
replace n w [] = []
replace n w ((k, v) ∷ s) = if k == n then (k, w) ∷ s else (k, v) ∷ replace n w s

-- `none` is a panic, or code that does not compile.
abbrev pub elem_of : Option Value → ℕ → Option Value
elem_of (some (arr vs)) i = elem vs i
elem_of v i = none

abbrev pub target : Option Value → Option Value
target (some (ref v)) = some v
target v = none

abbrev pub arr_of : Option Values → Option Value
arr_of none = none
arr_of (some vs) = some (arr vs)

abbrev pub with_elem : Option Value → ℕ → Value → Option Value
with_elem (some (arr vs)) i w = arr_of (set_elem vs i w)
with_elem v i w = none

abbrev pub with_target : Option Value → Value → Option Value
with_target (some (ref v)) w = some (ref w)
with_target v w = none

-- In a loop the variable i hides a receiver of that name.
abbrev pub is_hidden : String → Option ℕ → Bool
is_hidden recv none = false
is_hidden recv (some k) = recv == "i"

abbrev pub elem_at : Option Value → Option ℕ → Option Value
elem_at v none = none
elem_at v (some i) = elem_of v i

abbrev pub with_elem_at : Option Value → Option ℕ → Value → Option Value
with_elem_at v none w = none
with_elem_at v (some i) w = with_elem v i w

-- The value of a path, where the variable i has the value `i`; it is `none` outside every loop.
unfoldable pub read : Place → Option ℕ → State → Option Value
unfolding lookup
read (field recv n) i s = if is_hidden recv i then none else lookup n s
read (at_i p) i s = elem_at (read p i s) i
read (deref p) i s = target (read p i s)

abbrev pub or_panic {ℓ} : {A : Type ℓ} → Option A → (A → Option State) → Option State
or_panic none f = none
or_panic (some a) f = f a

unfoldable pub write : Place → Value → Option ℕ → State → Option State
unfolding read
write (field recv n) w i s = if is_hidden recv i then none else some (replace n w s)
write (at_i p) w i s = or_panic (with_elem_at (read p i s) i w) (λ v. write p v i s)
write (deref p) w i s = or_panic (with_target (read p i s) w) (λ v. write p v i s)

-- What a constant is in a variable of a predeclared type. `none` is a constant that the type does not
-- have; of the numbers only 0 is read here.
abbrev pub constant : String → Kind → Option ℕ
constant z boolean = if z == "false" then some 0 else if z == "true" then some 1 else none
constant z number = if z == "0" then some 0 else none
constant z text = if z == "\"\"" then some 0 else none
constant z face = if z == "nil" then some 0 else none

abbrev pub basic_of : Kind → Option ℕ → Option Value
basic_of k none = none
basic_of k (some n) = some (basic k n)

-- The value of a variable that held `v` and is assigned the constant.
abbrev pub with_constant : String → Value → Option Value
with_constant z (basic k n) = basic_of k (constant z k)
with_constant z (handle b) = if z == "nil" then some (handle false) else none
with_constant z v = none

-- A slice cut to length 0; a cleared map; the value after its method Reset, if it has one, that of a
-- pointer, and that in an interface.

abbrev pub emptied : Value → Value
emptied (sliced n) = sliced 0
emptied (mapped n) = mapped 0
emptied v = v

abbrev pub by_method : Value → Value
by_method (object true n) = object true 0
by_method v = v

abbrev pub by_pointer : Value → Value
by_pointer (ref (object true n)) = ref (object true 0)
by_pointer v = v

abbrev pub by_iface : Value → Value
by_iface (iface true n) = iface true 0
by_iface v = v

unfoldable pub assign_constant : Place → String → Option ℕ → State → Option State
unfolding read write
assign_constant p z i s =
    or_panic (read p i s) (λ v. or_panic (with_constant z v) (λ w. write p w i s))

unfoldable pub modify : Place → Place → (Value → Value) → Option ℕ → State → Option State
unfolding read write
modify from to f i s = or_panic (read from i s) (λ v. write to (f v) i s)

abbrev pub is_null : Value → Bool
is_null null = true
is_null v = false

abbrev pub length_of : Value → ℕ
length_of (arr vs) = size vs
length_of v = 0

-- `for i := range …` over `n` indices from `k`.
unfoldable pub iterate : (ℕ → State → Option State) → ℕ → ℕ → State → Option State
iterate body zero k s = some s
iterate body (suc n) k s = or_panic (body k s) (iterate body n (suc k))

unfoldable mutual
  unfolding modify assign_constant iterate read

  pub exec : Stmt → Option ℕ → State → Option State
  exec (assign p (literal z)) i s = assign_constant p z i s
  exec (assign p (cut q)) i s = modify q p emptied i s
  exec (clear p) i s = modify p p emptied i s
  exec (call_reset (address_of p)) i s = modify p p by_method i s
  exec (call_reset (itself p)) i s = modify p p by_pointer i s
  exec (iface_reset p) i s = modify p p by_iface i s
  exec (if_not_nil p body) i s =
      let inner = execs body i s in or_panic (read p i s) (λ v. if is_null v then some s else inner)
  exec (for_range p body) i s =
      or_panic (read p i s) (λ v. iterate (λ k t. execs body (some k) t) (length_of v) 0 s)

  pub execs : Stmts → Option ℕ → State → Option State
  execs no_stmts i s = some s
  execs (stmt st rest) i s = or_panic (exec st i s) (λ t. execs rest i t)

-- What Reset is for: a value of a predeclared type becomes zero, a slice or a map empty, a channel, a
-- function and an unsafe.Pointer nil; a pointer is kept and what it points to becomes zero or is reset by
-- its method; so is a value with a method Reset, also in an interface; an array is reset by elements.
abbrev pub reset_pointee : Value → Value
reset_pointee (basic k n) = basic k 0
reset_pointee v = by_method v

abbrev mutual
  pub reset_value : Value → Value
  reset_value (basic k n) = basic k 0
  reset_value (sliced n) = sliced 0
  reset_value (mapped n) = mapped 0
  reset_value null = null
  reset_value no_iface = no_iface
  reset_value (ref v) = ref (reset_pointee v)
  reset_value (arr vs) = arr (reset_values vs)
  reset_value (handle b) = handle false
  reset_value (object m n) = by_method (object m n)
  reset_value (iface m n) = by_iface (iface m n)

  pub reset_values : Values → Values
  reset_values no_values = no_values
  reset_values (more v vs) = more (reset_value v) (reset_values vs)
