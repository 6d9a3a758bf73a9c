-- ===== src/Backtest/Data.antt =====
-- `HistoricalData` and its validation, of backtest/data.py.
use tool_trade.Common.{Bool, true, false, not, Option, none, some, List, [], ◌∷◌, any, leb}
use tool_trade.Market.{validate_symbol}
use tool_trade.Market.Klines.{Candle}
use tool_trade.Result.{Result, ok, ◌>>=◌, ◌>>◌, raise_if, backtest_data}
use tool_trade.Text.{Text}
use tool_trade.Backtest.Config.{interval_to_ms}

pub record HistoricalData : Type 0 where
  pub symbol : Text
  pub timeframe : Text
  pub execution_interval : Text
  pub hour_candles : List Candle
  pub minute_candles : List Candle
  pub finer_candles : Option (List Candle)

abbrev pub is_empty_series : List Candle → Bool
is_empty_series [] = true
is_empty_series (c ∷ cs) = false

abbrev pub check_closed : List Candle → Result (Unit {0})
check_closed cs = raise_if (any (λ c. not (Candle.is_closed c)) cs) backtest_data

-- `_validate_ascending`; ascending timestamps have no duplicates.
abbrev pub validate_ascending : List Candle → Result (Unit {0})
validate_ascending [] = ok tt
validate_ascending (c ∷ []) = ok tt
validate_ascending (c ∷ d ∷ cs) =
    raise_if (leb (Candle.timestamp d) (Candle.timestamp c)) backtest_data >>= λ _.
    validate_ascending (d ∷ cs)

abbrev pub check_finer : Option (List Candle) → Result (Unit {0})
check_finer none = ok tt
check_finer (some cs) = check_closed cs >>= λ _. validate_ascending cs

unfoldable pub validate_historical_data : HistoricalData → Result (Unit {0})
validate_historical_data d = do
  _ ← validate_symbol d.symbol
  _ ← interval_to_ms d.timeframe
  _ ← interval_to_ms d.execution_interval
  raise_if (is_empty_series d.hour_candles) backtest_data
  raise_if (is_empty_series d.minute_candles) backtest_data
  check_closed d.hour_candles
  check_closed d.minute_candles
  validate_ascending d.hour_candles
  validate_ascending d.minute_candles
  check_finer d.finer_candles
