-- ===== src/Market/Klines.antt =====
-- Candles and their parsing: `Candle`, `is_candle_closed`, `_parse_kline`, `parse_klines` and
-- `fetch_klines` of binance/market_data.py. A price is the decimal that the float's text is.
use tool_trade.Common.{
  ℕ, Bool, true, not, ◌&&◌, List, [], ◌∷◌, ltb, if◌then◌else◌, pos, negsuc, select,
}
use tool_trade.Decimal
use tool_trade.Decimal.{Decimal}
use tool_trade.Models.{Value, number, IntArg, integer, not_integer, Timestamp}
use tool_trade.Market.{validate_symbol, validate_interval}
use tool_trade.Result.{Result, ok, err, ◌>>=◌, ◌>>◌, raise_if, malformed_kline, empty_kline}
use tool_trade.Text.{Text}

pub record Candle : Type 0 where
  pub timestamp : Timestamp
  pub open_price : Decimal
  pub high : Decimal
  pub low : Decimal
  pub close : Decimal
  pub volume : Decimal
  pub close_time : Timestamp
  pub is_closed : Bool

-- The fields of a row of the payload as `int` and `float` read them.
pub record Fields : Type 0 where
  pub timestamp : IntArg
  pub open_price : Value
  pub high : Value
  pub low : Value
  pub close : Value
  pub volume : Value
  pub close_time : IntArg

pub data Row : Type 0 where
  not_a_list too_short : Row
  row : Fields → Row

abbrev pub is_candle_closed : Timestamp → Timestamp → Bool
is_candle_closed close_time_ms now_ms = ltb close_time_ms now_ms

-- `int(value)` of a time, which may not be negative.
unfoldable pub parse_time : IntArg → Result Timestamp
parse_time (integer (pos n)) = ok n
parse_time (integer (negsuc n)) = err malformed_kline
parse_time not_integer = err malformed_kline

-- `float(value)` of a price, which is finite and positive.
unfoldable pub parse_price : Value → Result Decimal
parse_price (number d) = if Decimal.lt (Decimal.of_ℕ 0) d then ok d else err malformed_kline
parse_price _ = err malformed_kline

-- `float(value)` of a volume, which is finite and not negative.
unfoldable pub parse_volume : Value → Result Decimal
parse_volume (number d) = if Decimal.le (Decimal.of_ℕ 0) d then ok d else err malformed_kline
parse_volume _ = err malformed_kline

-- `max(a, b)` and `min(a, b)`
abbrev pub max_of : Decimal → Decimal → Decimal
max_of a b = if Decimal.lt a b then b else a

abbrev pub min_of : Decimal → Decimal → Decimal
min_of a b = if Decimal.lt b a then b else a

-- Every failure raises the same exception, so the order of the checks does not show.
unfoldable pub parse_fields : Fields → Timestamp → Result Candle
unfolding parse_time parse_price parse_volume
parse_fields f now_ms = do
  timestamp ← parse_time f.timestamp
  close_time ← parse_time f.close_time
  raise_if (ltb close_time timestamp) malformed_kline
  open_price ← parse_price f.open_price
  high ← parse_price f.high
  low ← parse_price f.low
  close ← parse_price f.close
  volume ← parse_volume f.volume
  raise_if (Decimal.lt high (max_of open_price close)) malformed_kline
  raise_if (Decimal.lt (min_of open_price close) low) malformed_kline
  ok (record {
    timestamp = timestamp;
    open_price = open_price;
    high = high;
    low = low;
    close = close;
    volume = volume;
    close_time = close_time;
    is_closed = is_candle_closed close_time now_ms;
  })

unfoldable pub parse_kline : Row → Timestamp → Result Candle
unfolding parse_fields
parse_kline not_a_list now_ms = err malformed_kline
parse_kline too_short now_ms = err malformed_kline
parse_kline (row f) now_ms = parse_fields f now_ms

unfoldable pub parse_rows : List Row → Timestamp → Result (List Candle)
unfolding parse_kline
parse_rows [] now_ms = ok []
parse_rows (r ∷ rs) now_ms = do
  candle ← parse_kline r now_ms
  rest ← parse_rows rs now_ms
  ok (candle ∷ rest)

-- Each timestamp is above the one before it.
abbrev pub is_ascending : List Candle → Bool
is_ascending [] = true
is_ascending (_ ∷ []) = true
is_ascending (prev ∷ curr ∷ rest) =
    ltb (Candle.timestamp prev) (Candle.timestamp curr) && is_ascending (curr ∷ rest)

unfoldable pub parse_klines : List Row → Timestamp → Result (List Candle)
unfolding parse_rows
parse_klines raw now_ms = do
  candles ← parse_rows raw now_ms
  raise_if (not (is_ascending candles)) malformed_kline
  ok candles

-- `if not candles: raise EmptyKlineError`
abbrev pub not_empty : List Candle → Result (List Candle)
not_empty [] = err empty_kline
not_empty (c ∷ cs) = ok (c ∷ cs)

-- The HTTP client is a parameter: the rows that it answers a symbol, an interval and a limit with.
pub fetch_klines :
    (Text → Text → ℕ → Result (List Row)) → Text → Text → ℕ → Timestamp → Result (List Candle)
unfolding parse_klines
fetch_klines get symbol interval limit now_ms = do
  normalized_symbol ← validate_symbol symbol
  normalized_interval ← validate_interval interval
  raw ← get normalized_symbol normalized_interval limit
  candles ← parse_klines raw now_ms
  not_empty candles

pub fetch_closed_klines :
    (Text → Text → ℕ → Result (List Row)) → Text → Text → ℕ → Timestamp → Result (List Candle)
unfolding fetch_klines
fetch_closed_klines get symbol interval limit now_ms = do
  candles ← fetch_klines get symbol interval limit now_ms
  not_empty (select (λ c. Candle.is_closed c) candles)
