-- ===== src/Base/Int64.antt =====
-- Go's `int64`: a two's-complement bit pattern below 2 ^ 64, with the integer it stands for.
-- `strconv.ParseInt(s, 10, 64)` over the bytes of the text.
use Prim.Native.Nat.{ℕ, suc, ◌+◌, ◌-◌, ◌*◌, ◌%◌, ◌^◌, ◌≤◌, ◌<◌}
use mathlib.Core.Path.{◌≡◌}
use mathlib.Core.Bool.{Bool, true, false, ◌||◌}
use mathlib.Core.List.{[], ◌∷◌}
use mathlib.Core.Option.{Option, none, some}
use native.Mathlib.Omega.{arith}
use rtmetrics.Base.Tests.{ltb, leb, nat_eq, if◌then◌else◌, Bytes}

-- `negsuc n` is -(n + 1).
pub data ℤ : Type 0 where
  pos : ℕ → ℤ
  negsuc : ℕ → ℤ

abbrev pub pos_part : ℤ → ℕ
pos_part (pos n) = n
pos_part (negsuc n) = 0

abbrev pub neg_part : ℤ → ℕ
neg_part (pos n) = 0
neg_part (negsuc n) = suc n

abbrev pub sub_ℕ : ℕ → ℕ → ℤ
sub_ℕ a b = if leb b a then pos (a - b) else negsuc (b - a - 1)

infixl 65 ◌+ℤ◌
infix 50 ◌≤ℤ◌
unfoldable pub ◌+ℤ◌ : ℤ → ℤ → ℤ
a +ℤ b = sub_ℕ (pos_part a + pos_part b) (neg_part a + neg_part b)

abbrev pub ◌≤ℤ◌ : ℤ → ℤ → Type 0
a ≤ℤ b = pos_part a + neg_part b ≤ pos_part b + neg_part a

abbrev pub leb_ℤ : ℤ → ℤ → Bool
leb_ℤ a b = leb (pos_part a + neg_part b) (pos_part b + neg_part a)

abbrev pub two64 : ℕ
two64 = 2 ^ 64

-- The integer that a bit pattern stands for.
abbrev pub signed : ℕ → ℤ
signed w = if ltb w (2 ^ 63) then pos w else negsuc (two64 - w - 1)

abbrev pub max_int64 : ℤ
max_int64 = pos (2 ^ 63 - 1)

abbrev pub min_int64 : ℤ
min_int64 = negsuc (2 ^ 63 - 1)

-- Go's `+` on int64 wraps.
unfoldable pub add64 : ℕ → ℕ → ℕ
add64 a b = (a + b) % two64

pub add64-lt : (a b : ℕ) → add64 a b < two64
unfolding add64
add64-lt a b = omega arith

pub add64_comm : (a b : ℕ) → add64 a b ≡ add64 b a
unfolding add64
add64_comm a b = omega arith

pub add64_assoc : (a b c : ℕ) → add64 (add64 a b) c ≡ add64 a (add64 b c)
unfolding add64
add64_assoc a b c = omega arith

pub add64-zero : (a : ℕ) → a < two64 → add64 0 a ≡ a
unfolding add64
add64-zero a h = omega arith

-- Where the true sum fits in int64, the wrapping sum is the true sum.
pub signed-add64 :
    (a b : ℕ)
    → a < two64
    → b < two64
    → min_int64 ≤ℤ signed a +ℤ signed b
    → signed a +ℤ signed b ≤ℤ max_int64
    → signed (add64 a b) ≡ signed a +ℤ signed b
unfolding add64 ◌+ℤ◌
signed-add64 a b ha hb lo hi = ground arith

-- The digit loop of ParseUint: `none` at a byte that is no digit.
unfoldable pub digits_value : Bytes → ℕ → Option ℕ
digits_value [] n = some n
digits_value (c ∷ s) n =
    let rest = digits_value s (n * 10 + (c - b'0')) in
    if ltb c b'0' || ltb b'9' c then none else rest

-- ParseUint(s, 10, 64): no digits is a syntax error, a value above the maximum a range error.
unfoldable pub parse_uint : Bytes → Option ℕ
unfolding digits_value
parse_uint [] = none
parse_uint (c ∷ s) = elim (digits_value (c ∷ s) 0) [
  | none ↦ none
  | some n ↦ if ltb n two64 then some n else none
]

-- The sign and the range test of ParseInt; the result is a bit pattern.
abbrev pub with_sign : Bool → Option ℕ → Option ℕ
with_sign neg none = none
with_sign false (some un) = if leb (2 ^ 63) un then none else some un
with_sign true (some un) = if ltb (2 ^ 63) un then none else some ((two64 - un) % two64)

unfoldable pub parse_int : Bytes → Option ℕ
unfolding parse_uint
parse_int [] = none
parse_int (c ∷ s) =
    if nat_eq c b'+'
    then with_sign false (parse_uint s)
    else if nat_eq c b'-'
    then with_sign true (parse_uint s)
    else with_sign false (parse_uint (c ∷ s))

-- A parsed value is an int64.
pub parse_int-lt : (s : Bytes) (n : ℕ) → parse_int s ≡ some n → n < two64
unfolding parse_int
parse_int-lt [] n h = cc
parse_int-lt (c ∷ s) n h = ground arith
