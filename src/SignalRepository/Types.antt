-- ===== src/SignalRepository/Types.antt =====
-- The keyword arguments of `create_signal` and `transition_signal`, and the checks that
-- `create_signal` makes before it opens the transaction.
use tool_trade.Common.{ℕ, not, Option, none, some, leb, ℤ, pos, negsuc, if◌then◌else◌}
use tool_trade.Market.{validate_symbol, validate_interval}
use tool_trade.Models.{
  Direction, is_direction, pending_entry, Value, IntArg, integer, not_integer, Outcome, CloseReason,
  Timestamp, Metadata, Signal, to_decimal, temperature_to_text, validate_signal_prices,
}
use tool_trade.Decimal.{Decimal}
use tool_trade.Result.{Result, ok, err, ◌>>=◌, ◌>>◌, raise_if, on_given, signal_validation}
use tool_trade.Text.{Text, strip, is_empty}

pub record NewSignal : Type 0 where
  pub symbol : Text
  pub timeframe : Text
  pub direction : Direction
  pub entry : Value
  pub stop_loss : Value
  pub take_profit : Value
  pub confidence : Option IntArg
  pub risk_reward : Option Value
  pub rationale : Option Text
  pub provider : Option Text
  pub model_name : Option Text
  pub temperature : Option Value
  pub strategy_name : Option Text
  pub strategy_version : Option Text
  pub created_at : Option Timestamp
  pub opened_at : Option Timestamp
  pub analysis_timestamp : Option Text
  pub market_timestamp : Option Text
  pub candle_close_price : Option Value

pub record Transition : Type 0 where
  pub close_price : Option Value
  pub close_reason : Option CloseReason
  pub result : Option Outcome
  pub closed_at : Option Timestamp
  pub opened_at : Option Timestamp

-- `value if value is not None else iso_utc_now()`
abbrev pub given_or : Option Timestamp → Timestamp → Timestamp
given_or none now = now
given_or (some t) now = t

-- The confidence column takes an `int` from 0 to 100.
unfoldable pub check_confidence : Option IntArg → Result (Option ℤ)
check_confidence none = ok none
check_confidence (some (integer (pos n))) =
    if leb n 100 then ok (some (pos n)) else err signal_validation
check_confidence (some (integer (negsuc n))) = err signal_validation
check_confidence (some not_integer) = err signal_validation

-- A text, where one is given, is not blank.
unfoldable pub check_text : Option Text → Result (Unit {0})
check_text none = ok tt
check_text (some t) = raise_if (is_empty (strip t)) signal_validation

pub record Levels : Type 0 where
  pub entry : Decimal
  pub stop_loss : Decimal
  pub take_profit : Decimal

-- The checks on the direction and the three prices.
unfoldable pub check_levels : Direction → Value → Value → Value → Result Levels
check_levels direction entry_value stop_value take_value = do
  raise_if (not (is_direction direction)) signal_validation
  entry ← to_decimal entry_value
  stop_loss ← to_decimal stop_value
  take_profit ← to_decimal take_value
  validate_signal_prices direction entry stop_loss take_profit
  ok (record { entry = entry; stop_loss = stop_loss; take_profit = take_profit })

-- The checks on the optional arguments, which follow.
unfoldable pub check_metadata : NewSignal → Result Metadata
check_metadata n = do
  confidence ← check_confidence n.confidence
  temperature ← temperature_to_text n.temperature
  risk ← on_given to_decimal n.risk_reward
  check_text n.rationale
  check_text n.analysis_timestamp
  check_text n.market_timestamp
  candle_close ← on_given to_decimal n.candle_close_price
  ok (record {
    confidence = confidence;
    risk_reward = risk;
    rationale = n.rationale;
    provider = n.provider;
    model_name = n.model_name;
    temperature = temperature;
    strategy_name = n.strategy_name;
    strategy_version = n.strategy_version;
    analysis_timestamp = n.analysis_timestamp;
    market_timestamp = n.market_timestamp;
    candle_close_price = candle_close;
  })

abbrev pub pending_row : NewSignal → Timestamp → Text → Text → Levels → Metadata → ℕ → Signal
pending_row n now symbol timeframe levels meta signal_id = record {
  id = signal_id;
  symbol = symbol;
  timeframe = timeframe;
  direction = n.direction;
  status = pending_entry;
  entry = levels.entry;
  stop_loss = levels.stop_loss;
  take_profit = levels.take_profit;
  created_at = given_or n.created_at now;
  opened_at = n.opened_at;
  closed_at = none;
  close_price = none;
  close_reason = none;
  result = none;
  meta = meta;
}

-- The row to insert, all but its id.
unfoldable pub check_signal : NewSignal → Timestamp → Result (ℕ → Signal)
check_signal n now = do
  symbol ← validate_symbol n.symbol
  timeframe ← validate_interval n.timeframe
  levels ← check_levels n.direction n.entry n.stop_loss n.take_profit
  meta ← check_metadata n
  ok (pending_row n now symbol timeframe levels meta)
