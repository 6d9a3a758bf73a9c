-- ===== src/Monitor/Candles.antt =====
-- signal_engine/monitor.py: what one closed candle says of a signal's levels.
use tool_trade.Common.{Bool, true, false, ◌||◌}
use tool_trade.Decimal
use tool_trade.Decimal.{Decimal}
use tool_trade.Models.{Direction, long, short, Signal}
use tool_trade.Result.{Result, ok, err, signal_validation}

pub data MonitorOutcome : Type 0 where
  no_active_signal entry_hit monitoring tp_hit sl_hit ambiguous data_unavailable error :
      MonitorOutcome

-- Which of two touches a candle has.
unfoldable pub exit_outcome : Bool → Bool → MonitorOutcome
exit_outcome true true = ambiguous
exit_outcome true false = tp_hit
exit_outcome false true = sl_hit
exit_outcome false false = monitoring

-- What `evaluate_candle` reads of the levels: a direction, a stop loss and a take profit.
unfoldable pub touch_exit :
    Direction → Decimal → Decimal → Decimal → Decimal → Result MonitorOutcome
unfolding exit_outcome
touch_exit long stop_loss take_profit high low =
    ok (exit_outcome (Decimal.le take_profit high) (Decimal.le low stop_loss))
touch_exit short stop_loss take_profit high low =
    ok (exit_outcome (Decimal.le low take_profit) (Decimal.le stop_loss high))
touch_exit _ stop_loss take_profit high low = err signal_validation

unfoldable pub evaluate_candle : Signal → Decimal → Decimal → Result MonitorOutcome
unfolding touch_exit
evaluate_candle s high low = touch_exit s.direction s.stop_loss s.take_profit high low

entry_outcome : Bool → Bool → MonitorOutcome
entry_outcome true true = ambiguous
entry_outcome true false = entry_hit
entry_outcome false _ = monitoring

-- What `evaluate_entry` reads of the levels.
unfoldable pub touch_entry :
    Direction → Decimal → Decimal → Decimal → Decimal → Decimal → Result MonitorOutcome
unfolding entry_outcome
touch_entry long entry stop_loss take_profit high low = ok (
    entry_outcome (Decimal.le entry high) (Decimal.le take_profit high || Decimal.le low stop_loss))
touch_entry short entry stop_loss take_profit high low =
    ok (
      entry_outcome (Decimal.le low entry)
        (Decimal.le low take_profit || Decimal.le stop_loss high))
touch_entry _ entry stop_loss take_profit high low = err signal_validation

unfoldable pub evaluate_entry : Signal → Decimal → Decimal → Result MonitorOutcome
unfolding touch_entry
evaluate_entry s high low = touch_entry s.direction s.entry s.stop_loss s.take_profit high low
