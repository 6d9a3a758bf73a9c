-- ===== src/Demo/Account/Arguments.antt =====
-- The numbers that demo/account.py computes from its arguments: positive ones, or an exception.
use tool_trade.Common.{
  ℕ, ◌≤◌, ◌≡◌, refl, sym, inl, inr, true, some, arith, Bool-cases, Option-cases, ltb, ◌*ℤ◌, pos,
  negsuc,
}
use tool_trade.Decimal
use tool_trade.Decimal.{Decimal}
use tool_trade.Decimal.Sign.{mul-pos}
use tool_trade.Decimal.Quotient.{div-pos}
use tool_trade.Models.{Value, number, IntArg, integer, not_integer}
use tool_trade.Result.{ok, Ensures, Ensures-map, Ensures-bind, Ensures-eq_ok}
use tool_trade.Demo.Account.{
  require_positive, require_positive_leverage, divide, position_size, position_quantity,
  risk_amount,
}

abbrev pub IsAbove0 : Decimal → Type 0
IsAbove0 d = Decimal.lt (Decimal.of_ℕ 0) d ≡ true

pub require_positive-Ensures :
    (v : Value) → Ensures (λ d. (v ≡ number d) × IsAbove0 d) (require_positive v)
unfolding require_positive
require_positive-Ensures (number d) = elim (Bool-cases (Decimal.le d (Decimal.of_ℕ 0))) [
  | inl e ↦ rw e tt
  | inr e ↦ rw e (refl, ground arith)
]
require_positive-Ensures _ = tt

-- A quotient of positive numbers is a positive number.
pub divide-pos : (a b : Decimal) → IsAbove0 a → IsAbove0 b → Ensures IsAbove0 (divide a b)
divide-pos a b h k = let (q, e, p) = div-pos a b h k in rw e p

above0 : (v : Value) (d : Decimal) → require_positive v ≡ ok d → IsAbove0 d
above0 v d h = (Ensures-eq_ok _ (require_positive v) d (require_positive-Ensures v) h).1

pub position_quantity-pos : (n e : Value) → Ensures IsAbove0 (position_quantity n e)
unfolding position_quantity
position_quantity-pos n e = Ensures-bind IsAbove0 (require_positive n) _ λ notional hn.
    Ensures-bind IsAbove0 (require_positive e) _
      λ entry he. divide-pos notional entry (above0 n notional hn) (above0 e entry he)

hundred : IsAbove0 (Decimal.of_ℕ 100)
unfolding Decimal.le ◌*ℤ◌
hundred = refl

pub risk_amount-pos : (b r : Value) → Ensures IsAbove0 (risk_amount b r)
unfolding risk_amount
risk_amount-pos b r = Ensures-bind IsAbove0 (require_positive b) _ λ balance hb.
    Ensures-bind IsAbove0 (require_positive r) _ λ percent hr.
      divide-pos (Decimal.mul balance percent) (Decimal.of_ℕ 100)
        (mul-pos balance percent (above0 b balance hb) (above0 r percent hr)) hundred

pub divide-Ensures : (a b : Decimal) → Ensures (λ q. Decimal.div a b ≡ some q) (divide a b)
divide-Ensures a b = elim (Option-cases (Decimal.div a b)) [
  | inl e ↦ rw e tt
  | inr (q, e) ↦ rw e refl
]

pub given : (v : Value) (d : Decimal) → require_positive v ≡ ok d → (v ≡ number d) × IsAbove0 d
given v d h = Ensures-eq_ok _ (require_positive v) d (require_positive-Ensures v) h

abbrev pub IsNumber : Value → Decimal → Type 0
IsNumber v d = (v ≡ number d) × IsAbove0 d

require_positive_given : (d e : Decimal) → require_positive (number d) ≡ ok e → d ≡ e
require_positive_given d e h = let (same, _) = given (number d) e h in ground arith

-- The margin times the leverage.
abbrev pub IsNotional : Value → IntArg → Decimal → Type 0
IsNotional m l notional =
    (amount : Decimal) × (n : ℕ) × IsNumber m amount
    × ((l ≡ integer (pos n)) × (1 ≤ n))
    × (notional ≡ Decimal.mul amount (Decimal.of_ℕ n))

leverage-Ensures :
    (l : IntArg) → Ensures (λ n. (l ≡ integer (pos n)) × (1 ≤ n)) (require_positive_leverage l)
leverage-Ensures (integer (pos n)) = elim (Bool-cases (ltb n 1)) [
  | inl e ↦ rw e tt
  | inr e ↦ rw e (refl, ground arith)
]
leverage-Ensures (integer (negsuc n)) = tt
leverage-Ensures not_integer = tt

pub position_size-Ensures : (m : Value) (l : IntArg) → Ensures (IsNotional m l) (position_size m l)
position_size-Ensures m l =
    let P = IsNotional m l in
    Ensures-bind P (require_positive m) _ λ amount hm.
      Ensures-bind P (require_positive_leverage l) _
        λ n hl. (amount, n, given m amount hm, Ensures-eq_ok _ _ n (leverage-Ensures l) hl, refl)

pub position_quantity-Ensures :
    (n e : Decimal)
    → Ensures (λ q. Decimal.div n e ≡ some q) (position_quantity (number n) (number e))
unfolding position_quantity
position_quantity-Ensures n e =
    let P : Decimal → Type 0 = λ q. Decimal.div n e ≡ some q in
    Ensures-bind P (require_positive (number n)) _ λ n' hn.
      Ensures-bind P (require_positive (number e)) _ λ e' he.
        rw (sym (require_positive_given n n' hn), sym (require_positive_given e e' he))
          (divide-Ensures n e)

-- The percentage of the balance.
abbrev pub IsAmount : Decimal → Value → Decimal → Type 0
IsAmount balance r amount =
    (percent : Decimal) × IsNumber r percent
    × (Decimal.div (Decimal.mul balance percent) (Decimal.of_ℕ 100) ≡ some amount)

pub risk_amount-Ensures :
    (b : Decimal) (r : Value) → Ensures (IsAmount b r) (risk_amount (number b) r)
unfolding risk_amount
risk_amount-Ensures b r =
    let P = IsAmount b r in
    Ensures-bind P (require_positive (number b)) _ λ b' hb.
      Ensures-bind P (require_positive r) _ λ percent hr.
        rw (sym (require_positive_given b b' hb)) (
          Ensures-map (λ a. Decimal.div (Decimal.mul b percent) (Decimal.of_ℕ 100) ≡ some a) P _
            (λ a k. (percent, given r percent hr, k))
            (divide-Ensures (Decimal.mul b percent) (Decimal.of_ℕ 100)))
