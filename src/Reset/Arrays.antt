-- ===== src/Reset/Arrays.antt =====
-- The loop that cmd/reset/generate.go writes for an array resets every element of it.
use rtmetrics.Base.{◌==◌, none, suc, ◌≡◌, refl, sym, ◌∙◌, ap, String, false, some, [], ◌∷◌}
use native.Mathlib.Omega.{arith}
use rtmetrics.Base.GoMap.{lookup}
use rtmetrics.Reset.{
  Expr, ident, star, slice, array, map_type, interface_type, chan_type, func_type, struct_type,
  selector, index, paren, field, at_i, for_range, one, build_stmts,
}
use rtmetrics.Reset.Semantics.{
  Value, arr, Values, no_values, more, State, elem, set_elem, size, replace, read, write, iterate,
  exec, execs, reset_value, reset_values, more_of,
}
use rtmetrics.Reset.Fits.{
  AllValues, all_none, all_more, IsArray, of_arr, Fits, is_array, is_nested, Spot,
}
use rtmetrics.Reset.Fields.{execs-one, leaf}

pub lookup-replace :
    (n : String) (v w : Value) (s : State) → lookup n s ≡ some v → lookup n (replace n w s) ≡ some w
unfolding lookup
lookup-replace n v w [] h = cc (h)
lookup-replace n v w ((k, x) ∷ s) h =
    let ih : lookup n s ≡ some v → lookup n (replace n w s) ≡ some w = lookup-replace n v w s in
    ground arith

replace-replace :
    (n : String) (v w : Value) (s : State) → replace n w (replace n v s) ≡ replace n w s
replace-replace n v w [] = refl
replace-replace n v w ((k, x) ∷ s) =
    let ih : replace n w (replace n v s) ≡ replace n w s = replace-replace n v w s in ground arith

replace-same : (n : String) (v : Value) (s : State) → lookup n s ≡ some v → replace n v s ≡ s
unfolding lookup
replace-same n v [] h = refl
replace-same n v ((k, x) ∷ s) h =
    let ih : lookup n s ≡ some v → replace n v s ≡ s = replace-same n v s in ground arith

abbrev then_values : Values → Values → Values
then_values no_values vs = vs
then_values (more v done) vs = more v (then_values done vs)

abbrev then_one : Values → Value → Values
then_one no_values w = more w no_values
then_one (more v done) w = more v (then_one done w)

elem-then_values :
    (done : Values) (v : Value) (vs : Values)
    → elem (then_values done (more v vs)) (size done) ≡ some v
elem-then_values no_values v vs = refl
elem-then_values (more w done) v vs = elem-then_values done v vs

set_elem-then_values :
    (done : Values) (v w : Value) (vs : Values)
    → set_elem (then_values done (more v vs)) (size done) w ≡ some (then_values done (more w vs))
set_elem-then_values no_values v w vs = refl
set_elem-then_values (more u done) v w vs = ap (more_of u) (set_elem-then_values done v w vs)

then_values-then_one :
    (done : Values) (w : Value) (vs : Values)
    → then_values (then_one done w) vs ≡ then_values done (more w vs)
then_values-then_one no_values w vs = refl
then_values-then_one (more u done) w vs = ap (more u) (then_values-then_one done w vs)

size-then_one : (done : Values) (w : Value) → size (then_one done w) ≡ suc (size done)
size-then_one no_values w = refl
size-then_one (more u done) w = ap suc (size-then_one done w)

then_values-none : (done : Values) → then_values done no_values ≡ done
then_values-none no_values = refl
then_values-none (more u done) = ap (more u) (then_values-none done)

-- The receiver is not named i.
module _ (recv n : String) (visible : (recv == "i") ≡ false) (s : State) where
  -- A field that holds `v`.
  field-Spot : (v : Value) → lookup n s ≡ some v → Spot (field recv n) none s v (λ w. replace n w s)
  unfolding read write
  field-Spot v h = record { reads = h; writes = λ w. refl; same = replace-same n v s h }

  module _ (old : Value) (h : lookup n s ≡ some old) where
    abbrev now : Values → State
    now vs = replace n (arr vs) s

    -- The element of an array field that the loop has come to.
    elem-Spot :
        (done : Values) (v : Value) (vs : Values)
        → Spot
            (at_i (field recv n))
            (some (size done))
            (now (then_values done (more v vs)))
            v
            (λ w. now (then_values done (more w vs)))
    unfolding read write
    elem-Spot done v vs = record {
      reads = rw visible (
          rw (lookup-replace n old (arr (then_values done (more v vs))) s h)
            (elem-then_values done v vs));
      writes = λ w. rw visible (
          rw (lookup-replace n old (arr (then_values done (more v vs))) s h) (
            rw (set_elem-then_values done v w vs) (
              ap some (
                replace-replace n (arr (then_values done (more v vs)))
                  (arr (then_values done (more w vs))) s))));
      same = refl;
    }

    loop :
        (t : Expr) (done vs : Values)
        → is_array t ≡ false
        → AllValues (Fits t) vs
        → iterate
            (λ k u. execs (build_stmts (at_i (field recv n)) t) (some k) u)
            (size vs)
            (size done)
            (now (then_values done vs))
          ≡ some (now (then_values done (reset_values vs)))
    unfolding iterate
    loop t done no_values flat all_none = refl
    loop t done (more v vs) flat (all_more _ _ fits rest) =
        rw
          (leaf (at_i (field recv n)) (some (size done)) (now (then_values done (more v vs))) t v
            (λ w. now (then_values done (more w vs))) (elem-Spot done v vs) fits flat)
          (rw (← then_values-then_one done (reset_value v) vs) (
            rw (← then_values-then_one done (reset_value v) (reset_values vs)) (
              rw (← size-then_one done (reset_value v))
                (loop t (then_one done (reset_value v)) vs flat rest))))

  array_stmts :
      (t : Expr) (v : Value)
      → lookup n s ≡ some v
      → is_array t ≡ false
      → IsArray (Fits t) v
      → execs (one (for_range (field recv n) (build_stmts (at_i (field recv n)) t))) none s
        ≡ some (replace n (reset_value v) s)
  unfolding exec read
  array_stmts t _ h flat (of_arr vs fits) =
      let around : replace n (arr vs) s ≡ s = replace-same n (arr vs) s h in
      execs-one (for_range (field recv n) (build_stmts (at_i (field recv n)) t)) none s _ (
        rw h (
          ap
            (λ u.
              iterate (λ k x. execs (build_stmts (at_i (field recv n)) t) (some k) x) (size vs) 0 u)
            (sym around)
          ∙ loop (arr vs) h t no_values vs flat fits))

  -- The statements for a field whose type has no array of arrays leave in it what Reset is for, and
  -- the other fields as they were.
  pub build_stmts-field :
      (t : Expr) (v : Value)
      → lookup n s ≡ some v
      → is_nested t ≡ false
      → Fits t v
      → execs (build_stmts (field recv n) t) none s ≡ some (replace n (reset_value v) s)
  unfolding build_stmts is_nested is_array Fits
  build_stmts-field (paren t) v h flat fits = build_stmts-field t v h flat fits
  build_stmts-field (array t) v h flat fits = array_stmts t v h flat fits
  build_stmts-field (ident m) v h flat fits = leaf _ none s (ident m) v _ (field-Spot v h) fits refl
  build_stmts-field (star t) v h flat fits = leaf _ none s (star t) v _ (field-Spot v h) fits refl
  build_stmts-field (slice t) v h flat fits = leaf _ none s (slice t) v _ (field-Spot v h) fits refl
  build_stmts-field map_type v h flat fits = leaf _ none s map_type v _ (field-Spot v h) fits refl
  build_stmts-field interface_type v h flat fits =
      leaf _ none s interface_type v _ (field-Spot v h) fits refl
  build_stmts-field chan_type v h flat fits = leaf _ none s chan_type v _ (field-Spot v h) fits refl
  build_stmts-field func_type v h flat fits = leaf _ none s func_type v _ (field-Spot v h) fits refl
  build_stmts-field struct_type v h flat fits =
      leaf _ none s struct_type v _ (field-Spot v h) fits refl
  build_stmts-field (selector x y) v h flat fits =
      leaf _ none s (selector x y) v _ (field-Spot v h) fits refl
  build_stmts-field (index t) v h flat fits = leaf _ none s (index t) v _ (field-Spot v h) fits refl
