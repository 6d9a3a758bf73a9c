-- ===== src/Demo/Account/Equity.antt =====
-- The peak of the equity and the drawdown from it.
use mathlib.Core.Bool.{false≢true}
use tool_trade.Common.{
  ◌≡◌, refl, sym, ◌∙◌, ◌⊎◌, ◌↔◌, inl, inr, true, false, arith, if◌then◌else◌, Bool-cases,
}
use tool_trade.Decimal
use tool_trade.Decimal.{Decimal}
use tool_trade.Decimal.Order.{le_refl_lem, le_total}
use tool_trade.Decimal.Sign.{lt_zero-sub_iff}
use tool_trade.Models.{number}
use tool_trade.Result.{ok}
use tool_trade.Demo.Account.{require_nonnegative, update_peak_equity, current_drawdown}
use tool_trade.Demo.Account.Arguments.{IsAbove0}

abbrev pub IsNonneg : Decimal → Type 0
IsNonneg d = Decimal.lt d (Decimal.of_ℕ 0) ≡ false

require_nonnegative-eq : (d : Decimal) → IsNonneg d → require_nonnegative (number d) ≡ ok d
unfolding require_nonnegative
require_nonnegative-eq d h = ground arith

larger-bounds :
    (peak equity : Decimal)
    → let new = if Decimal.lt peak equity then equity else peak in
      (Decimal.le peak new ≡ true)
      × (Decimal.le equity new ≡ true)
      × ((new ≡ peak) ⊎ (new ≡ equity))
larger-bounds peak equity =
    let t = le_total peak equity in
    let p = le_refl_lem peak in
    let e = le_refl_lem equity in
    elim (Bool-cases (Decimal.lt peak equity)) [
      | inl k ↦ rw k (ground arith, e, inr refl)
      | inr k ↦ rw k (p, ground arith, inl refl)
    ]

zero-not-above : ¬ IsAbove0 (Decimal.of_ℕ 0)
zero-not-above = let z = le_refl_lem (Decimal.of_ℕ 0) in λ h. ground arith

loss-bounds :
    (peak equity : Decimal)
    → let loss = Decimal.sub peak equity in
      let down = if Decimal.lt (Decimal.of_ℕ 0) loss then loss else Decimal.of_ℕ 0 in
      (IsAbove0 down ↔ (Decimal.lt equity peak ≡ true))
      × (¬ (IsAbove0 down) → down ≡ Decimal.of_ℕ 0)
loss-bounds peak equity =
    let (above, below) = lt_zero-sub_iff peak equity in
    elim (Bool-cases (Decimal.lt (Decimal.of_ℕ 0) (Decimal.sub peak equity))) [
      | inl k ↦ rw k ((λ _. below k, λ _. k), λ n. absurd (n k))
      | inr k ↦
          rw k (
            (λ z. absurd (zero-not-above z), λ l. absurd (false≢true (sym k ∙ above l))),
            λ _. refl,
          )
    ]

-- For balances that are not negative, the new peak is the larger of the old one and the equity, and
-- the drawdown from it is never negative: 0 exactly where the equity is at or above the peak.
pub peak_drawdown :
    (peak equity : Decimal)
    → IsNonneg peak
    → IsNonneg equity
    → ((new : Decimal) × (update_peak_equity (number peak) (number equity) ≡ ok new)
        × (Decimal.le peak new ≡ true)
        × (Decimal.le equity new ≡ true)
        × ((new ≡ peak) ⊎ (new ≡ equity)))
      × ((loss : Decimal) × (current_drawdown (number peak) (number equity) ≡ ok loss)
          × (IsAbove0 loss ↔ (Decimal.lt equity peak ≡ true))
          × (¬ (IsAbove0 loss) → loss ≡ Decimal.of_ℕ 0))
unfolding update_peak_equity current_drawdown
peak_drawdown peak equity hp he =
    let p = require_nonnegative-eq peak hp in
    let e = require_nonnegative-eq equity he in
    let (up, down, one) = larger-bounds peak equity in
    let (iff, zero_else) = loss-bounds peak equity in
    ((_, ground arith, up, down, one), (_, ground arith, iff, zero_else))
