-- ===== src/Decimal.antt =====
-- Python's `decimal.Decimal` as the program uses it: finite values `coeff * 10 ^ exp`, compared
-- exactly, with results rounded half-even to the 28 digits of the default context. Exponents are not
-- bounded, and the sign of a zero is not kept.
pub mod Order
pub mod Sign
pub mod Quotient
mod Tests
use tool_trade.Common.{
  ℕ, zero, suc, ◌+◌, ◌-◌, ◌*◌, ◌/◌, ◌%◌, ◌^◌, Bool, true, false, not, ◌&&◌, ◌||◌, Option, none,
  some, ltb, leb, ◌==◌, if◌then◌else◌, ℤ, pos, negsuc, pos_part, neg_part, magnitude, sub_ℕ,
  with_magnitude, List, [], ◌∷◌, ◌+ℤ◌, ◌-ℤ◌, ◌*ℤ◌, digits, arith,
}

pub record Decimal : Type 0 where
  pub coeff : ℤ
  pub exp : ℤ

abbrev pub of_ℕ : ℕ → Decimal
of_ℕ n = record { coeff = pos n; exp = pos 0 }

-- `Decimal("…")` of a literal with that many digits behind the point.
abbrev pub literal : ℕ → ℕ → Decimal
literal n places = record { coeff = pos n; exp = sub_ℕ 0 places }

-- How far the first exponent stands above the second.
abbrev pub exp_gap : ℤ → ℤ → ℕ
exp_gap e f = (pos_part e + neg_part f) - (neg_part e + pos_part f)

abbrev pub exp_min : ℤ → ℤ → ℤ
exp_min e f = if leb (pos_part e + neg_part f) (neg_part e + pos_part f) then e else f

-- The coefficient of the first value, over the smaller exponent of the two.
abbrev pub aligned : Decimal → Decimal → ℤ
aligned a b = a.coeff *ℤ pos (10 ^ exp_gap a.exp b.exp)

-- `a <= b`
unfoldable pub le : Decimal → Decimal → Bool
le a b =
    leb (pos_part (aligned a b) + neg_part (aligned b a))
      (neg_part (aligned a b) + pos_part (aligned b a))

-- `a < b`
abbrev pub lt : Decimal → Decimal → Bool
lt a b = not (le b a)

-- `a == b`
abbrev pub eq : Decimal → Decimal → Bool
eq a b = le a b && le b a

-- The digits of the context.
abbrev pub prec : ℕ
prec = 28

-- m / 10 ^ k, to the nearest integer, and to the even one of two.
unfoldable pub half_even : ℕ → ℕ → ℕ
half_even m k =
    let unit = 10 ^ k in
    let q = m / unit in
    let r = m % unit in
    if ltb (2 * r) unit then q else (if ltb unit (2 * r) then q + 1 else q + q % 2)

-- The context's rounding of an exact result. What rounds up to one digit more is 10 ^ 28, which is the
-- same value with the shorter coefficient.
unfoldable pub fix : ℤ → ℤ → Decimal
unfolding half_even
fix c e =
    let extra = digits (magnitude c) - prec in
    if extra == 0
    then record { coeff = c; exp = e }
    else record { coeff = with_magnitude c (half_even (magnitude c) extra); exp = e +ℤ pos extra }

unfoldable pub add : Decimal → Decimal → Decimal
add a b = fix (aligned a b +ℤ aligned b a) (exp_min a.exp b.exp)

unfoldable pub sub : Decimal → Decimal → Decimal
sub a b = fix (aligned a b -ℤ aligned b a) (exp_min a.exp b.exp)

unfoldable pub mul : Decimal → Decimal → Decimal
mul a b = fix (a.coeff *ℤ b.coeff) (a.exp +ℤ b.exp)

-- The integer of that absolute value whose sign is the product's.
abbrev pub with_product_sign : ℤ → ℤ → ℕ → ℤ
with_product_sign (pos _) (pos _) m = pos m
with_product_sign (pos _) (negsuc _) m = sub_ℕ 0 m
with_product_sign (negsuc _) (pos _) m = sub_ℕ 0 m
with_product_sign (negsuc _) (negsuc _) m = pos m

-- Drops zeros from the end of an exact quotient, at most as many as stand between its exponent and
-- the ideal one.
strip_zeros : ℕ → ℕ → ℤ → ℕ × ℤ
strip_zeros zero c e = (c, e)
strip_zeros (suc k) c e =
    let rest = strip_zeros k (c / 10) (e +ℤ pos 1) in if c % 10 == 0 then rest else (c, e)

-- The coefficient of a quotient with two digits to spare, and its exponent. A remainder is marked in
-- the last digit, so that the rounding after it is right.
unfoldable pub quotient : ℕ → ℕ → ℤ → ℕ × ℤ
unfolding strip_zeros
quotient a b ideal =
    let up = digits b + (prec + 1) - digits a in
    let down = digits a - (digits b + (prec + 1)) in
    let num = a * 10 ^ up in
    let den = b * 10 ^ down in
    let q = num / den in
    let e = ideal +ℤ pos down -ℤ pos up in
    if num % den == 0 then strip_zeros up q e else (if q % 5 == 0 then q + 1 else q, e)

-- The quotient of values that are not zero.
div_nonzero : (ca cb ea eb : ℤ) → Decimal
div_nonzero ca cb ea eb =
    let (q, e) = quotient (magnitude ca) (magnitude cb) (ea -ℤ eb) in
    fix (with_product_sign ca cb q) e

div_parts : (ca cb ea eb : ℤ) → Option Decimal
div_parts ca cb ea eb =
    if magnitude cb == 0
    then none
    else if magnitude ca == 0
    then some (record { coeff = pos 0; exp = ea -ℤ eb })
    else some (div_nonzero ca cb ea eb)

-- `a / b`; `none` is the exception that a zero divisor raises.
unfoldable pub div : Decimal → Decimal → Option Decimal
unfolding div_parts div_nonzero
div a b = div_parts a.coeff b.coeff a.exp b.exp

-- `-a` and `abs(a)`, which round as well.
unfoldable pub neg : Decimal → Decimal
neg a = fix (pos 0 -ℤ a.coeff) a.exp

abbrev pub abs : Decimal → Decimal
abs a = fix (pos (magnitude a.coeff)) a.exp

-- `sum(values, start)`
abbrev pub sum : List Decimal → Decimal → Decimal
sum [] acc = acc
sum (x ∷ xs) acc = sum xs (add acc x)
