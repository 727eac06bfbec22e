-- ===== src/Reset.antt =====
-- cmd/reset/generate.go: the statements of a generated method Reset. A type is the syntax that go/parser
-- returned; what a path or a value is as text in the generator is data here.
pub mod Semantics
pub mod Fits
pub mod Fields
pub mod Arrays
pub mod Methods
use Prim.Native.Char.{Char}
use rtmetrics.Base.{
  String, Bool, true, false, Option, none, some, List, [], ◌∷◌, ◌++◌, if◌then◌else◌, ◌==◌,
}
use rtmetrics.Base.GoMap.{lookup}

-- ast.Expr, the expressions that are types. The length of an array and the types of a map's keys and
-- values are not looked at.
pub data Expr : Type 0 where
  ident : String → Expr
  star : Expr → Expr
  slice : Expr → Expr
  array : Expr → Expr
  map_type interface_type chan_type func_type struct_type : Expr
  selector : String → String → Expr
  index : Expr → Expr
  paren : Expr → Expr

abbrev pub zero_by_type : List (String × String)
zero_by_type =
    ("bool", "false")
    ∷ ("int", "0")
    ∷ ("int8", "0")
    ∷ ("int16", "0")
    ∷ ("int32", "0")
    ∷ ("int64", "0")
    ∷ ("uint", "0")
    ∷ ("uint8", "0")
    ∷ ("uint16", "0")
    ∷ ("uint32", "0")
    ∷ ("uint64", "0")
    ∷ ("uintptr", "0")
    ∷ ("float32", "0")
    ∷ ("float64", "0")
    ∷ ("complex64", "0")
    ∷ ("complex128", "0")
    ∷ ("byte", "0")
    ∷ ("rune", "0")
    ∷ ("string", "\"\"")
    ∷ ("error", "nil")
    ∷ ("any", "nil")
    ∷ []

-- `recv.name`, with the names of the receiver and the field, `p[i]` and `*p`; the variable i is the one
-- of the innermost loop.
pub data Place : Type 0 where
  field : String → String → Place
  at_i : Place → Place
  deref : Place → Place

-- The right side of an assignment, and the value whose method is called: `&p` or `p`.
pub data Rhs : Type 0 where
  literal : String → Rhs
  cut : Place → Rhs

pub data Addr : Type 0 where
  address_of itself : Place → Addr

-- stmt, by its Kind; Inner is the list of the second type.
mutual
  pub data Stmt : Type 0 where
    assign : Place → Rhs → Stmt
    clear : Place → Stmt
    if_not_nil for_range : Place → Stmts → Stmt
    call_reset : Addr → Stmt
    iface_reset : Place → Stmt

  pub data Stmts : Type 0 where
    no_stmts : Stmts
    stmt : Stmt → Stmts → Stmts

abbrev pub one : Stmt → Stmts
one s = stmt s no_stmts

abbrev pub and_then : Stmts → Stmts → Stmts
and_then no_stmts t = t
and_then (stmt s rest) t = stmt s (and_then rest t)

unfoldable pub unwrap : Expr → Expr
unwrap (paren t) = unwrap t
unwrap (ident n) = ident n
unwrap (star t) = star t
unwrap (slice t) = slice t
unwrap (array t) = array t
unwrap map_type = map_type
unwrap interface_type = interface_type
unwrap chan_type = chan_type
unwrap func_type = func_type
unwrap struct_type = struct_type
unwrap (selector x s) = selector x s
unwrap (index t) = index t

-- buildStmts for an identifier, and for a pointer to the unwrapped type.
abbrev pub ident_stmts : Place → Option String → Stmts
ident_stmts path (some z) = one (assign path (literal z))
ident_stmts path none = one (call_reset (address_of path))

abbrev pub pointee_stmts : Place → Option String → Stmts
pointee_stmts path (some z) = one (if_not_nil path (one (assign (deref path) (literal z))))
pointee_stmts path none = one (if_not_nil path (one (call_reset (itself path))))

abbrev pub basic_name : Expr → Option String
basic_name (ident n) = lookup n zero_by_type
basic_name t = none

unfoldable pub build_stmts : Place → Expr → Stmts
unfolding unwrap
build_stmts path (paren t) = build_stmts path t
build_stmts path (ident n) = ident_stmts path (lookup n zero_by_type)
build_stmts path (star t) = pointee_stmts path (basic_name (unwrap t))
build_stmts path (slice t) = one (assign path (cut path))
build_stmts path (array t) = one (for_range path (build_stmts (at_i path) t))
build_stmts path map_type = one (clear path)
build_stmts path interface_type = one (iface_reset path)
build_stmts path chan_type = one (assign path (literal "nil"))
build_stmts path func_type = one (assign path (literal "nil"))
build_stmts path (selector x s) =
    if x == "unsafe"
    then (if s == "Pointer"
        then one (assign path (literal "nil"))
        else one (call_reset (address_of path)))
    else one (call_reset (address_of path))
build_stmts path (index t) = one (call_reset (address_of path))
build_stmts path struct_type = one (call_reset (address_of path))

-- embeddedName
unfoldable pub embedded_name : Expr → String
embedded_name (ident n) = n
embedded_name (star t) = embedded_name t
embedded_name (selector x s) = s
embedded_name (index t) = embedded_name t
embedded_name (paren t) = embedded_name t
embedded_name t = ""

-- ast.Field: its names, none for an embedded field, and its type.
pub record Field : Type 0 where
  pub names : List String
  pub typ : Expr

abbrev pub but_blank : List String → List String
but_blank [] = []
but_blank (n ∷ ns) = if n == "_" then but_blank ns else n ∷ but_blank ns

-- fieldNames
unfoldable pub field_names : Field → List String
unfolding embedded_name
field_names f = elim f.names [
  | [] ↦ if embedded_name f.typ == "" then [] else embedded_name f.typ ∷ []
  | n ∷ ns ↦ but_blank (n ∷ ns)
]

-- The loops of buildMethod: over the names of a field, and over the fields.
unfoldable pub names_stmts : String → List String → Expr → Stmts
names_stmts recv [] t = no_stmts
names_stmts recv (n ∷ ns) t = and_then (build_stmts (field recv n) t) (names_stmts recv ns t)

unfoldable pub fields_stmts : String → List Field → Stmts
fields_stmts recv [] = no_stmts
fields_stmts recv (f ∷ fs) =
    and_then (names_stmts recv (field_names f) f.typ) (fields_stmts recv fs)

-- receiverName; `lower` is strings.ToLower on a character.
unfoldable pub receiver_name : (Char → String) → String → String
receiver_name lower String.[] = "s"
receiver_name lower (String.◌∷◌ c cs) = lower c

-- buildMethod: the name of the receiver, and the statements.
unfoldable pub build_method : (Char → String) → String → List Field → String × Stmts
unfolding receiver_name fields_stmts
build_method lower type_name fs =
    let recv = receiver_name lower type_name in (recv, fields_stmts recv fs)
