-- ===== src/Examples/Reset.antt =====
-- The generator of Reset methods (cmd/reset/generate.go) on a struct, and on an array of arrays.
use Prim.Native.Char.{Char, code}
use rtmetrics.Base.{
  nat_eq, String, if◌then◌else◌, ◌≡◌, refl, true, false, none, some, List, [], ◌∷◌,
}
use rtmetrics.Base.GoMap.{lookup}
use rtmetrics.Reset.{
  Field, ident, star, array, slice, map_type, selector, field, build_stmts, build_method,
  receiver_name, fields_stmts, unwrap, field_names, embedded_name, names_stmts,
}
use rtmetrics.Reset.Semantics.{
  number, text, boolean, assign_constant, State, basic, sliced, mapped, ref, arr, object, handle,
  no_values, more, execs, exec, modify, read, write, iterate,
}
use rtmetrics.Reset.Fits.{Fits}

-- a, b int; s []int; m map[string]int; p *string; q *Child; t [2]bool; _ int; Child; h unsafe.Pointer
abbrev some_fields : List Field
some_fields =
    record { names = "a" ∷ "b" ∷ []; typ = ident "int" }
    ∷ record { names = "s" ∷ []; typ = slice (ident "int") }
    ∷ record { names = "m" ∷ []; typ = map_type }
    ∷ record { names = "p" ∷ []; typ = star (ident "string") }
    ∷ record { names = "q" ∷ []; typ = star (ident "Child") }
    ∷ record { names = "t" ∷ []; typ = array (ident "bool") }
    ∷ record { names = "_" ∷ []; typ = ident "int" }
    ∷ record { names = []; typ = ident "Child" }
    ∷ record { names = "h" ∷ []; typ = selector "unsafe" "Pointer" }
    ∷ []

abbrev some_state : State
some_state =
    ("a", basic number 4)
    ∷ ("b", basic number 0)
    ∷ ("s", sliced 3)
    ∷ ("m", mapped 2)
    ∷ ("p", ref (basic text 7))
    ∷ ("q", ref (object true 5))
    ∷ ("t", arr (more (basic boolean 1) (more (basic boolean 0) no_values)))
    ∷ ("_", basic number 9)
    ∷ ("Child", object true 6)
    ∷ ("h", handle true)
    ∷ []

-- strings.ToLower, on the letters of the examples.
abbrev to_lower : Char → String
to_lower c = if nat_eq (code c) b'I' then "i" else "r"

method_state :
    execs (build_method to_lower "Row" some_fields).1 none some_state
    ≡ some (
        ("a", basic number 0)
        ∷ ("b", basic number 0)
        ∷ ("s", sliced 0)
        ∷ ("m", mapped 0)
        ∷ ("p", ref (basic text 0))
        ∷ ("q", ref (object true 0))
        ∷ ("t", arr (more (basic boolean 0) (more (basic boolean 0) no_values)))
        ∷ ("_", basic number 9)
        ∷ ("Child", object true 0)
        ∷ ("h", handle false)
        ∷ [])
unfolding build_method receiver_name fields_stmts field_names embedded_name build_stmts unwrap execs
    names_stmts exec assign_constant modify read write iterate lookup
method_state = refl

-- For m [2][2]int both loops have the variable i: `m[i][i]` is reset, and no other element.
diagonal_reset :
    execs (build_stmts (field "r" "m") (array (array (ident "int")))) none (
      (
        "m",
        arr (
            more
              (arr (more (basic number 1) (more (basic number 2) no_values)))
              (more (arr (more (basic number 3) (more (basic number 4) no_values))) no_values)),
      )
      ∷ [])
    ≡ some (
        (
          "m",
          arr (
              more
                (arr (more (basic number 0) (more (basic number 2) no_values)))
                (more (arr (more (basic number 3) (more (basic number 0) no_values))) no_values)),
        )
        ∷ [])
unfolding build_stmts unwrap execs exec assign_constant modify read write iterate lookup
diagonal_reset = refl

-- For m [1][2]int it is the array at index 1 that `m[i][i]` reads: a panic.
out_of_range :
    execs (build_stmts (field "r" "m") (array (array (ident "int")))) none (
      ("m", arr (more (arr (more (basic number 1) (more (basic number 2) no_values))) no_values))
      ∷ [])
    ≡ none
unfolding build_stmts unwrap execs exec assign_constant modify read write iterate lookup
out_of_range = refl

-- The receiver of a type Item is i, which the loop for an array hides: `i.t[i]` does not compile.
hidden_receiver :
    execs
      (build_method to_lower "Item"
        (record { names = "t" ∷ []; typ = array (ident "bool") } ∷ [])).1
      none
      (("t", arr (more (basic boolean 1) no_values)) ∷ [])
    ≡ none
unfolding build_method receiver_name fields_stmts field_names embedded_name build_stmts unwrap execs
    names_stmts exec assign_constant modify read write iterate lookup
hidden_receiver = refl
