-- ===== src/Monitor/Touches.antt =====
-- What the outcomes of one candle say of a signal whose levels are in order.
use tool_trade.Common.{◌≡◌, Bool, true, false, arith, ◌↔◌}
use tool_trade.Decimal
use tool_trade.Decimal.{Decimal}
use tool_trade.Decimal.Order.{le_total, le_trans}
use tool_trade.Models.{Direction, long, Signal}
use tool_trade.Models.Prices.{IsOrdered}
use tool_trade.Result.{ok}
use tool_trade.Monitor.Candles.{
  entry_hit, monitoring, tp_hit, sl_hit, ambiguous, evaluate_candle, evaluate_entry,
}

-- How far a price has gone in a signal's direction: past the one level, and back past the other.
abbrev pub reaches : Direction → Decimal → Decimal → Decimal → Bool
reaches long level high low = Decimal.le level high
reaches _ level high low = Decimal.le low level

abbrev pub falls_to : Direction → Decimal → Decimal → Decimal → Bool
falls_to long level high low = Decimal.le low level
falls_to _ level high low = Decimal.le level high

abbrev pub at_tp : Signal → Decimal → Decimal → Bool
at_tp s high low = reaches s.direction s.take_profit high low

abbrev pub at_sl : Signal → Decimal → Decimal → Bool
at_sl s high low = falls_to s.direction s.stop_loss high low

-- A candle's outcome for an open position is TP exactly if it reaches the take profit and stays off the
-- stop loss, SL exactly if the other way round, AMBIGUOUS exactly if it touches both, and MONITORING
-- exactly if neither, for a signal whose levels are in order.
pub evaluate_candle_iff :
    (s : Signal) (high low : Decimal)
    → IsOrdered s.direction s.entry s.stop_loss s.take_profit
    → ((evaluate_candle s high low ≡ ok tp_hit)
        ↔ ((at_tp s high low ≡ true) × (at_sl s high low ≡ false)))
      × ((evaluate_candle s high low ≡ ok sl_hit)
          ↔ ((at_tp s high low ≡ false) × (at_sl s high low ≡ true)))
      × ((evaluate_candle s high low ≡ ok ambiguous)
          ↔ ((at_tp s high low ≡ true) × (at_sl s high low ≡ true)))
      × ((evaluate_candle s high low ≡ ok monitoring)
          ↔ ((at_tp s high low ≡ false) × (at_sl s high low ≡ false)))
unfolding evaluate_candle
evaluate_candle_iff s high low ordered = ground arith

-- A candle opens a pending signal exactly if it reaches the entry, and neither the take profit nor the
-- stop loss; then it closes nothing.
pub evaluate_entry_iff :
    (s : Signal) (high low : Decimal)
    → IsOrdered s.direction s.entry s.stop_loss s.take_profit
    → (evaluate_entry s high low ≡ ok entry_hit) ↔ (
        (reaches s.direction s.entry high low ≡ true)
        × (evaluate_candle s high low ≡ ok monitoring))
unfolding evaluate_candle evaluate_entry
evaluate_entry_iff s high low ordered = ground arith

lt-le : (a b c : Decimal) → Decimal.lt a b ≡ true → Decimal.le b c ≡ true → Decimal.le a c ≡ true
lt-le a b c h k = ground (arith, le_total a b, le_trans a b c)

le-lt : (a b c : Decimal) → Decimal.lt b c ≡ true → Decimal.le a b ≡ true → Decimal.le a c ≡ true
le-lt a b c h k = ground (arith, le_total b c, le_trans a b c)

-- The levels are in order, so a candle that would close an open position at its take profit has also
-- passed the entry: a pending signal sees it as AMBIGUOUS, and stays pending.
pub tp_hit-ambiguous :
    (s : Signal) (high low : Decimal)
    → IsOrdered s.direction s.entry s.stop_loss s.take_profit
    → evaluate_candle s high low ≡ ok tp_hit
    → evaluate_entry s high low ≡ ok ambiguous
unfolding evaluate_candle evaluate_entry
tp_hit-ambiguous s high low ordered h =
    let up = lt-le s.entry s.take_profit high in
    let down = le-lt low s.take_profit s.entry in ground arith
