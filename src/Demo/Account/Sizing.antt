-- ===== src/Demo/Account/Sizing.antt =====
-- The quantity of a position.
use tool_trade.Common.{ℕ, ◌≤◌, ◌≡◌, subst, inl, inr, true, false, some, arith, Bool-cases, pos}
use tool_trade.Decimal
use tool_trade.Decimal.{Decimal}
use tool_trade.Decimal.Order.{le_refl_lem, le_total}
use tool_trade.Models.{Value, number, IntArg, integer}
use tool_trade.Result.{
  Ensures, Ensures-bind, Ensures-eq_ok, raise_if, raise_if-eq-ok, demo_calculation,
}
use tool_trade.Demo.Account.{
  require_positive, divide, position_size, position_quantity, risk_amount, SizingRule, margin, risk,
  smaller, resolve_quantity,
}
use tool_trade.Demo.Account.Arguments.{
  IsAbove0, divide-pos, position_quantity-pos, risk_amount-pos, divide-Ensures, given, IsNotional,
  position_size-Ensures, position_quantity-Ensures, IsAmount, risk_amount-Ensures,
}

-- The rule of a quantity: the margin's where it buys no more than the risk allows, else the risk's.
pub data IsRule (by_margin by_risk : Decimal) : Decimal → SizingRule → Type 0 where
  margin_bound : Decimal.le by_margin by_risk ≡ true → IsRule by_margin by_risk by_margin margin
  risk_bound : Decimal.lt by_risk by_margin ≡ true → IsRule by_margin by_risk by_risk risk

-- What a returned quantity is, in the numbers that were given: the margin times the leverage over the
-- entry, or the percentage of the balance over the distance to the stop loss, the smaller of the two,
-- each product and quotient rounded.
pub record IsSized (balance margin_value : Value) (leverage : IntArg)
    (risk_value entry stop : Value) (sized : Decimal × SizingRule) : Type 0 where
  pub funds : Decimal
  pub margin_amount : Decimal
  pub multiplier : ℕ
  pub risk_percent : Decimal
  pub entry_value : Decimal
  pub stop_value : Decimal
  pub amount : Decimal
  pub by_margin : Decimal
  pub by_risk : Decimal
  pub balance_given : (balance ≡ number funds) × IsAbove0 funds
  pub margin_given : (margin_value ≡ number margin_amount) × IsAbove0 margin_amount
  pub leverage_given : (leverage ≡ integer (pos multiplier)) × (1 ≤ multiplier)
  pub risk_given : (risk_value ≡ number risk_percent) × IsAbove0 risk_percent
  pub entry_given : (entry ≡ number entry_value) × IsAbove0 entry_value
  pub stop_given : (stop ≡ number stop_value) × IsAbove0 stop_value
  pub margin_buys :
      Decimal.div (Decimal.mul margin_amount (Decimal.of_ℕ multiplier)) entry_value ≡ some by_margin
  pub at_risk : Decimal.div (Decimal.mul funds risk_percent) (Decimal.of_ℕ 100) ≡ some amount
  pub risk_buys :
      Decimal.div amount (Decimal.abs (Decimal.sub entry_value stop_value)) ≡ some by_risk
  pub above : IsAbove0 sized.0
  pub below_margin : Decimal.le sized.0 by_margin ≡ true
  pub below_risk : Decimal.le sized.0 by_risk ≡ true
  pub rule : IsRule by_margin by_risk sized.0 sized.1

smaller-bounds :
    (m r : Decimal)
    → IsAbove0 m
    → IsAbove0 r
    → IsAbove0 (smaller m r).0
      × (Decimal.le (smaller m r).0 m ≡ true)
      × (Decimal.le (smaller m r).0 r ≡ true)
smaller-bounds m r h k =
    let t = le_total r m in
    let a = le_refl_lem m in
    let b = le_refl_lem r in
    elim (Bool-cases (Decimal.lt r m)) [
      | inl e ↦ rw e (k, ground arith, b)
      | inr e ↦ rw e (h, a, ground arith)
    ]

smaller-IsRule : (m r : Decimal) → IsRule m r (smaller m r).0 (smaller m r).1
smaller-IsRule m r = elim (Bool-cases (Decimal.lt r m)) [
  | inl e ↦ rw e (risk_bound e)
  | inr e ↦ rw e (margin_bound (ground arith))
]

IsAbove0-not-le : (d : Decimal) → Decimal.le d (Decimal.of_ℕ 0) ≡ false → IsAbove0 d
IsAbove0-not-le d h = ground arith

-- Where `resolve_quantity` returns, the quantity is positive, and the smaller of what the fixed margin
-- buys at that leverage and of what loses no more than the risk at the stop loss; the rule names the
-- one that bound.
pub resolve_quantity-Ensures :
    (balance margin_value : Value) (leverage : IntArg) (risk_value entry stop : Value)
    → Ensures
        (IsSized balance margin_value leverage risk_value entry stop)
        (resolve_quantity balance margin_value leverage risk_value entry stop)
unfolding resolve_quantity
resolve_quantity-Ensures b m l r e s =
    let P = IsSized b m l r e s in
    Ensures-bind P (require_positive b) _ λ balance hb.
      Ensures-bind P (require_positive e) _ λ entry he.
        Ensures-bind P (require_positive s) _ λ stop hs.
          let dist = Decimal.abs (Decimal.sub entry stop) in
          Ensures-bind P (raise_if (Decimal.le dist (Decimal.of_ℕ 0)) demo_calculation) _ λ _ hd.
            Ensures-bind P (position_size m l) _ λ notional hn.
              Ensures-bind P (position_quantity (number notional) (number entry)) _ λ by_margin hm.
                Ensures-bind P (risk_amount (number balance) r) _ λ amount ha.
                  Ensures-bind P (divide amount dist) _ λ by_risk hr.
                    let pm =
                      Ensures-eq_ok IsAbove0 _ by_margin
                        (position_quantity-pos (number notional) (number entry)) hm in
                    let pa =
                      Ensures-eq_ok IsAbove0 _ amount (risk_amount-pos (number balance) r) ha in
                    let pd = IsAbove0-not-le dist (raise_if-eq-ok _ demo_calculation hd) in
                    let pr = Ensures-eq_ok IsAbove0 _ by_risk (divide-pos amount dist pa pd) hr in
                    let (above, le_margin, le_risk) = smaller-bounds by_margin by_risk pm pr in
                    let (margin_amount, n, gm, gl, notional_is) =
                      Ensures-eq_ok (IsNotional m l) _ notional (position_size-Ensures m l) hn in
                    let (percent, gr, at_risk) =
                      Ensures-eq_ok (IsAmount balance r) _ amount (risk_amount-Ensures balance r)
                        ha in
                    record {
                      funds = balance;
                      margin_amount = margin_amount;
                      multiplier = n;
                      risk_percent = percent;
                      entry_value = entry;
                      stop_value = stop;
                      amount = amount;
                      by_margin = by_margin;
                      by_risk = by_risk;
                      balance_given = given b balance hb;
                      margin_given = gm;
                      leverage_given = gl;
                      risk_given = gr;
                      entry_given = given e entry he;
                      stop_given = given s stop hs;
                      margin_buys =
                          subst (λ x. Decimal.div x entry ≡ some by_margin) notional_is
                            (Ensures-eq_ok _ _ by_margin (position_quantity-Ensures notional entry)
                              hm);
                      at_risk = at_risk;
                      risk_buys = Ensures-eq_ok _ _ by_risk (divide-Ensures amount dist) hr;
                      above = above;
                      below_margin = le_margin;
                      below_risk = le_risk;
                      rule = smaller-IsRule by_margin by_risk;
                    }
