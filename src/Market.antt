-- ===== src/Market.antt =====
-- The argument checks of binance/market_data.py, and whether a candle is closed.
pub mod Klines
pub mod Order
pub mod Sanity
mod Tests
use Prim.Native.String.{String}
use tool_trade.Common.{
  ℕ, Bool, true, false, ◌&&◌, ◌||◌, List, [], ◌∷◌, ltb, leb, if◌then◌else◌, not,
}
use tool_trade.Result.{Result, ok, err, Error, invalid_symbol, invalid_interval}
use tool_trade.Text.{Text, codes, text_in, strip, is_empty, upper, lower}

-- One character of `[A-Z0-9]`.
abbrev pub is_symbol_char : ℕ → Bool
is_symbol_char c = (leb b'A' c && leb c b'Z') || (leb b'0' c && leb c b'9')

abbrev all_symbol_chars : Text → Bool
all_symbol_chars [] = true
all_symbol_chars (c ∷ s) = is_symbol_char c && all_symbol_chars s

-- `_SYMBOL_RE.fullmatch(s)`
abbrev pub matches_symbol : Text → Bool
matches_symbol s = not (is_empty s) && all_symbol_chars s

-- A `str` argument.
unfoldable pub validate_symbol : Text → Result Text
validate_symbol symbol =
    let normalized = upper (strip symbol) in
    if is_empty (strip symbol)
    then err invalid_symbol
    else (if matches_symbol normalized then ok normalized else err invalid_symbol)

abbrev pub supported_intervals : List Text
supported_intervals = codes "1m" ∷ codes "5m" ∷ codes "15m" ∷ codes "1h" ∷ codes "4h" ∷ []

unfoldable pub validate_interval : Text → Result Text
validate_interval interval =
    let normalized = lower (strip interval) in
    if is_empty (strip interval)
    then err invalid_interval
    else (if text_in normalized supported_intervals then ok normalized else err invalid_interval)
