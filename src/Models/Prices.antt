-- ===== src/Models/Prices.antt =====
-- The price order that a signal must have.
use tool_trade.Common.{true, ◌≡◌, ◌↔◌, Option, some, arith}
use tool_trade.Decimal
use tool_trade.Decimal.{Decimal}
use tool_trade.Result.{ok, on_given}
use tool_trade.Models.{
  Direction, long, short, wait, unknown, Value, number, nan, infinite, malformed, to_decimal,
  validate_signal_prices,
}

-- LONG: stop loss below entry below take profit; SHORT: the other way round.
abbrev pub IsOrdered : Direction → Decimal → Decimal → Decimal → Type 0
IsOrdered long entry stop take = (Decimal.lt stop entry ≡ true) × (Decimal.lt entry take ≡ true)
IsOrdered short entry stop take = (Decimal.lt take entry ≡ true) × (Decimal.lt entry stop ≡ true)
IsOrdered wait entry stop take = ⊥
IsOrdered unknown entry stop take = ⊥

pub validate_signal_prices_iff :
    (d : Direction) (entry stop take : Decimal)
    → (validate_signal_prices d entry stop take ≡ ok tt) ↔ IsOrdered d entry stop take
unfolding validate_signal_prices
validate_signal_prices_iff long entry stop take = ground arith
validate_signal_prices_iff short entry stop take = ground arith
validate_signal_prices_iff wait entry stop take = ground arith
validate_signal_prices_iff unknown entry stop take = ground arith

pub to_decimal-pos :
    (v : Value) (d : Decimal)
    → to_decimal v ≡ ok d
    → (v ≡ number d) × (Decimal.lt (Decimal.of_ℕ 0) d ≡ true)
unfolding to_decimal
to_decimal-pos (number x) d h = ground arith
to_decimal-pos nan d h = cc
to_decimal-pos infinite d h = cc
to_decimal-pos malformed d h = cc

-- A number that is given and accepted is kept as it is.
pub given-to_decimal :
    (p : Decimal) (price : Option Decimal)
    → on_given to_decimal (some (number p)) ≡ ok price
    → price ≡ some p
unfolding to_decimal
given-to_decimal p price h = ground arith
