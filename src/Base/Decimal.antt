-- ===== src/Base/Decimal.antt =====
-- `strconv.FormatInt(v, 10)` for an int64, and its round trip with `ParseInt`.
use Prim.Native.Nat.{ℕ, zero, suc, ◌+◌, ◌-◌, ◌*◌, ◌/◌, ◌%◌, ◌^◌, ◌≤◌, ◌<◌}
use native.Mathlib.Nat.{pow-suc}
use mathlib.Core.Path.{◌≡◌, refl, ◌∙◌}
use mathlib.Core.Logic.{inl, inr}
use mathlib.Core.Bool.{false}
use mathlib.Core.List.{[], ◌∷◌}
use mathlib.Core.Option.{some}
use native.Mathlib.Omega.{arith}
use rtmetrics.Base.Tests.{ltb, if◌then◌else◌, Bool-cases, Bytes}
use rtmetrics.Base.Int64.{two64, digits_value, parse_uint, with_sign, parse_int}

-- The digits of `n` before `out`. Twenty digits are enough below 2 ^ 64.
unfoldable pub emit : ℕ → ℕ → Bytes → Bytes
emit zero n out = out
emit (suc fuel) n out =
    let more = emit fuel (n / 10) ((b'0' + n % 10) ∷ out) in
    if ltb n 10 then (b'0' + n) ∷ out else more

unfoldable pub format_uint : ℕ → Bytes
unfolding emit
format_uint n = emit 20 n []

unfoldable pub format_int : ℕ → Bytes
unfolding format_uint
format_int w = if ltb w (2 ^ 63) then format_uint w else b'-' ∷ format_uint (two64 - w)

abbrev StartsWithDigit : Bytes → Type 0
StartsWithDigit s = (c : ℕ) × (r : Bytes) × (s ≡ c ∷ r) × (b'0' ≤ c) × (c ≤ b'9')

emit-StartsWithDigit :
    (fuel n c : ℕ) (out : Bytes) → b'0' ≤ c → c ≤ b'9' → StartsWithDigit (emit fuel n (c ∷ out))
unfolding emit
emit-StartsWithDigit zero n c out lo hi = (c, out, refl, lo, hi)
emit-StartsWithDigit (suc fuel) n c out lo hi = elim (Bool-cases (ltb n 10)) [
  | inl small ↦ rw small (b'0' + n, c ∷ out, refl, omega arith, ground arith)
  | inr large ↦
      rw large
        (emit-StartsWithDigit fuel (n / 10) (b'0' + n % 10) (c ∷ out) (omega arith) (omega arith))
]

format_uint-StartsWithDigit : (n : ℕ) → StartsWithDigit (format_uint n)
unfolding format_uint
format_uint-StartsWithDigit n = elim (Bool-cases (ltb n 10)) [
  | inl small ↦ rw small (b'0' + n, [], refl, omega arith, ground arith)
  | inr large ↦
      rw large (emit-StartsWithDigit 19 (n / 10) (b'0' + n % 10) [] (omega arith) (omega arith))
]

last_digit :
    (q d : ℕ) (out : Bytes)
    → d < 10
    → digits_value ((b'0' + d) ∷ out) q ≡ digits_value out (q * 10 + d)
unfolding digits_value
last_digit q d out h = ground arith

digits_value-emit :
    (fuel n : ℕ) (out : Bytes)
    → n < 10 ^ fuel
    → digits_value (emit fuel n out) 0 ≡ digits_value out n
unfolding emit digits_value
digits_value-emit zero n out h = let e : n ≡ 0 = omega arith in rw e
digits_value-emit (suc fuel) n out h = ground (
  arith,
  pow-suc 10 fuel,
  digits_value-emit fuel (n / 10) ((b'0' + n % 10) ∷ out),
  last_digit (n / 10) (n % 10) out,
  last_digit 0 n out,
)

digits_value-format_uint : (n : ℕ) → n < 10 ^ 20 → digits_value (format_uint n) 0 ≡ some n
unfolding format_uint digits_value
digits_value-format_uint n h = digits_value-emit 20 n [] h

parse_uint_digits :
    (s : Bytes) (n : ℕ)
    → StartsWithDigit s
    → digits_value s 0 ≡ some n
    → n < two64
    → parse_uint s ≡ some n
unfolding parse_uint
parse_uint_digits [] n (c, r, e, lo, hi) h fits = cc
parse_uint_digits (c ∷ s) n _ h fits = rw (h, parse_uint) (ground arith)

parse_uint-format_uint : (n : ℕ) → n < two64 → parse_uint (format_uint n) ≡ some n
parse_uint-format_uint n h =
    parse_uint_digits (format_uint n) n (format_uint-StartsWithDigit n)
      (digits_value-format_uint n (omega arith)) h

parse_int_digits : (s : Bytes) → StartsWithDigit s → parse_int s ≡ with_sign false (parse_uint s)
unfolding parse_int
parse_int_digits [] (c, r, e, lo, hi) = cc
parse_int_digits (c ∷ s) (c', r, e, lo, hi) = ground arith

-- ParseInt reads back what FormatInt prints of an int64.
pub parse_int-format_int : (w : ℕ) → w < two64 → parse_int (format_int w) ≡ some w
unfolding format_int parse_int
parse_int-format_int w h = elim (Bool-cases (ltb w (2 ^ 63))) [
  | inl nonneg ↦ rw nonneg (
      parse_int_digits (format_uint w) (format_uint-StartsWithDigit w)
      ∙ rw (parse_uint-format_uint w h) (ground arith))
  | inr neg ↦ rw neg (rw (parse_uint-format_uint (two64 - w) (ground arith)) (ground arith))
]
