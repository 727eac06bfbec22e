-- ===== src/Reset/Fields.antt =====
-- The statements that cmd/reset/generate.go writes for one field reset it.
use rtmetrics.Base.{
  ℕ, ◌≡◌, refl, sym, ◌∙◌, ap, String, Bool, true, false, Option, none, some, List, [], ◌∷◌, arith,
  if◌then◌else◌, ◌==◌,
}
use rtmetrics.Base.GoMap.{lookup}
use rtmetrics.Reset.{
  Expr, ident, star, slice, array, map_type, interface_type, chan_type, func_type, struct_type,
  selector, index, paren, zero_by_type, Place, deref, literal, cut, address_of, itself, Stmt,
  assign, clear, if_not_nil, call_reset, iface_reset, Stmts, one, unwrap, ident_stmts,
  pointee_stmts, basic_name, build_stmts,
}
use rtmetrics.Reset.Semantics.{
  Value, basic, sliced, mapped, null, no_iface, ref, arr, handle, object, iface, State, read, write,
  modify, assign_constant, with_constant, Kind, boolean, number, text, face, exec, execs, emptied,
  by_method, by_pointer, by_iface, reset_pointee, reset_value,
}
use rtmetrics.Reset.Fits.{
  of_basic, IsObject, of_object, IsHandle, of_handle, IsIface, of_no_iface, of_iface, IsSliced,
  of_sliced, IsMapped, of_mapped, is_basic, IsPointer, of_null, to_basic, to_other, IsNamed, kinds,
  pointee_kind, Fits, is_array, Spot,
}

module _ {p : Place} {i : Option ℕ} {s : State} {v : Value} {upd : Value → State}
    (h : Spot p i s v upd) where
  modified : (f : Value → Value) → modify p p f i s ≡ some (upd (f v))
  unfolding modify
  modified f = rw h.reads (h.writes (f v))

  assigned :
      (z : String) (w : Value) → with_constant z v ≡ some w → assign_constant p z i s ≡ some (upd w)
  unfolding assign_constant
  assigned z w e = rw h.reads (rw e (h.writes w))

-- The constant of the zero value.
abbrev zero_constant : Kind → String
zero_constant boolean = "false"
zero_constant number = "0"
zero_constant text = "\"\""
zero_constant face = "nil"

constant-zero : (k : Kind) (n : ℕ) → with_constant (zero_constant k) (basic k n) ≡ some (basic k 0)
constant-zero boolean n = refl
constant-zero number n = refl
constant-zero text n = refl
constant-zero face n = refl

abbrev constant_for : Option Kind → Option String
constant_for none = none
constant_for (some k) = some (zero_constant k)

abbrev constants : List (String × Kind) → List (String × String)
constants [] = []
constants ((n, k) ∷ ks) = (n, zero_constant k) ∷ constants ks

lookup-constants :
    (n : String) (ks : List (String × Kind)) → lookup n (constants ks) ≡ constant_for (lookup n ks)
unfolding lookup
lookup-constants n [] = refl
lookup-constants n ((m, k) ∷ ks) =
    let ih : lookup n (constants ks) ≡ constant_for (lookup n ks) = lookup-constants n ks in
    ground arith

-- zeroByType has the constant of the zero value of each predeclared type.
lookup-zero_by_type : (n : String) → lookup n zero_by_type ≡ constant_for (lookup n kinds)
lookup-zero_by_type n = lookup-constants n kinds

basic_name-pointee_kind : (t : Expr) → basic_name t ≡ constant_for (pointee_kind t)
basic_name-pointee_kind (ident n) = lookup-zero_by_type n
basic_name-pointee_kind (star t) = refl
basic_name-pointee_kind (slice t) = refl
basic_name-pointee_kind (array t) = refl
basic_name-pointee_kind map_type = refl
basic_name-pointee_kind interface_type = refl
basic_name-pointee_kind chan_type = refl
basic_name-pointee_kind func_type = refl
basic_name-pointee_kind struct_type = refl
basic_name-pointee_kind (selector x y) = refl
basic_name-pointee_kind (index t) = refl
basic_name-pointee_kind (paren t) = refl

by_pointer-pointee : (v : Value) → is_basic v ≡ false → by_pointer (ref v) ≡ ref (reset_pointee v)
by_pointer-pointee (basic k n) h = cc (h)
by_pointer-pointee (sliced n) h = refl
by_pointer-pointee (mapped n) h = refl
by_pointer-pointee null h = refl
by_pointer-pointee no_iface h = refl
by_pointer-pointee (ref v) h = refl
by_pointer-pointee (arr vs) h = refl
by_pointer-pointee (handle b) h = refl
by_pointer-pointee (object true n) h = refl
by_pointer-pointee (object false n) h = refl
by_pointer-pointee (iface b n) h = refl

pub execs-one :
    (st : Stmt) (i : Option ℕ) (s t : State) → exec st i s ≡ some t → execs (one st) i s ≡ some t
unfolding execs
execs-one st i s t h = rw h refl

module _ (p : Place) (i : Option ℕ) (s : State) where
  ident_leaf :
      (k : Option Kind) (v : Value) (upd : Value → State)
      → Spot p i s v upd
      → IsNamed k v
      → execs (ident_stmts p (constant_for k)) i s ≡ some (upd (reset_value v))
  unfolding exec
  ident_leaf (some k) _ upd h (of_basic n) =
      execs-one (assign p (literal (zero_constant k))) i s _
        (assigned h (zero_constant k) _ (constant-zero k n))
  ident_leaf none _ upd h (of_object m n) =
      execs-one (call_reset (address_of p)) i s _ (modified h by_method)

  deref-Spot :
      (w : Value) (upd : Value → State)
      → Spot p i s (ref w) upd
      → Spot (deref p) i s w (λ x. upd (ref x))
  unfolding read write
  deref-Spot w upd h = record {
    reads = rw h.reads refl;
    writes = λ x. rw h.reads (h.writes (ref x));
    same = h.same;
  }

  -- A pointer that is nil, and one that is not.
  nil_pointer :
      (body : Stmts) (upd : Value → State)
      → Spot p i s null upd
      → execs (one (if_not_nil p body)) i s ≡ some (upd null)
  unfolding exec
  nil_pointer body upd h = execs-one (if_not_nil p body) i s _ (rw h.reads (ap some (sym h.same)))

  pointer :
      (body : Stmts) (v : Value) (t : State) (upd : Value → State)
      → Spot p i s (ref v) upd
      → execs body i s ≡ some t
      → execs (one (if_not_nil p body)) i s ≡ some t
  unfolding exec
  pointer body v t upd h inner = execs-one (if_not_nil p body) i s _ (rw h.reads inner)

  pointee_leaf :
      (k : Option Kind) (v : Value) (upd : Value → State)
      → Spot p i s v upd
      → IsPointer k v
      → execs (pointee_stmts p (constant_for k)) i s ≡ some (upd (reset_value v))
  unfolding exec
  pointee_leaf (some k) _ upd h (of_null _) =
      nil_pointer (one (assign (deref p) (literal (zero_constant k)))) upd h
  pointee_leaf none _ upd h (of_null _) = nil_pointer (one (call_reset (itself p))) upd h
  pointee_leaf (some k) _ upd h (to_basic _ n) =
      pointer (one (assign (deref p) (literal (zero_constant k)))) (basic k n) _ upd h (
        execs-one (assign (deref p) (literal (zero_constant k))) i s _
          (assigned (deref-Spot (basic k n) upd h) (zero_constant k) _ (constant-zero k n)))
  pointee_leaf none _ upd h (to_other v e) = pointer (one (call_reset (itself p))) v _ upd h (
      execs-one (call_reset (itself p)) i s _
        (modified h by_pointer ∙ ap (λ x. some (upd x)) (by_pointer-pointee v e)))

  handle_leaf :
      (v : Value) (upd : Value → State)
      → Spot p i s v upd
      → IsHandle v
      → execs (one (assign p (literal "nil"))) i s ≡ some (upd (reset_value v))
  unfolding exec
  handle_leaf _ upd h (of_handle b) =
      execs-one (assign p (literal "nil")) i s _ (assigned h "nil" (handle false) refl)

  selector_leaf :
      (a b : Bool) (v : Value) (upd : Value → State)
      → Spot p i s v upd
      → (if a then (if b then IsHandle v else IsObject v) else IsObject v)
      → execs
          (if a
            then (if b then one (assign p (literal "nil")) else one (call_reset (address_of p)))
            else one (call_reset (address_of p)))
          i
          s
        ≡ some (upd (reset_value v))
  selector_leaf true true v upd h fits = handle_leaf v upd h fits
  selector_leaf true false v upd h fits = ident_leaf none v upd h fits
  selector_leaf false b v upd h fits = ident_leaf none v upd h fits

  iface_leaf :
      (v : Value) (upd : Value → State)
      → Spot p i s v upd
      → IsIface v
      → execs (one (iface_reset p)) i s ≡ some (upd (reset_value v))
  unfolding exec
  iface_leaf _ upd h of_no_iface = execs-one (iface_reset p) i s _ (modified h by_iface)
  iface_leaf _ upd h (of_iface b n) = execs-one (iface_reset p) i s _ (modified h by_iface)

  slice_leaf :
      (v : Value) (upd : Value → State)
      → Spot p i s v upd
      → IsSliced v
      → execs (one (assign p (cut p))) i s ≡ some (upd (reset_value v))
  unfolding exec
  slice_leaf _ upd h (of_sliced n) = execs-one (assign p (cut p)) i s _ (modified h emptied)

  map_leaf :
      (v : Value) (upd : Value → State)
      → Spot p i s v upd
      → IsMapped v
      → execs (one (clear p)) i s ≡ some (upd (reset_value v))
  unfolding exec
  map_leaf _ upd h (of_mapped n) = execs-one (clear p) i s _ (modified h emptied)

  -- The statements for a type that is no array reset the variable.
  pub leaf :
      (t : Expr) (v : Value) (upd : Value → State)
      → Spot p i s v upd
      → Fits t v
      → is_array t ≡ false
      → execs (build_stmts p t) i s ≡ some (upd (reset_value v))
  unfolding build_stmts is_array Fits
  leaf (paren t) v upd h fits flat = leaf t v upd h fits flat
  leaf (ident n) v upd h fits flat =
      rw (lookup-zero_by_type n) (ident_leaf (lookup n kinds) v upd h fits)
  leaf (star t) v upd h fits flat =
      rw (basic_name-pointee_kind (unwrap t)) (pointee_leaf (pointee_kind (unwrap t)) v upd h fits)
  leaf (slice t) v upd h fits flat = slice_leaf v upd h fits
  leaf (array t) v upd h fits flat = cc (flat)
  leaf map_type v upd h fits flat = map_leaf v upd h fits
  leaf interface_type v upd h fits flat = iface_leaf v upd h fits
  leaf chan_type v upd h fits flat = handle_leaf v upd h fits
  leaf func_type v upd h fits flat = handle_leaf v upd h fits
  leaf (selector x y) v upd h fits flat =
      selector_leaf (x == "unsafe") (y == "Pointer") v upd h fits
  leaf (index t) v upd h fits flat = ident_leaf none v upd h fits
  leaf struct_type v upd h fits flat = ident_leaf none v upd h fits
