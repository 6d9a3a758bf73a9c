-- ===== src/Market/Tests.antt =====
-- The theorem on parsed candles at a payload of two rows, the second of which is not closed.
use tool_trade.Common.{List, [], ◌∷◌, All, pos}
use tool_trade.Decimal
use tool_trade.Models.{number, integer}
use tool_trade.Result.{Ensures}
use tool_trade.Market.Klines.{Row, row, parse_klines}
use tool_trade.Market.Order.{IsAscending}
use tool_trade.Market.Sanity.{IsCandle, AreRead, parse_klines-Ensures}

abbrev payload : List Row
payload =
    row (record {
      timestamp = integer (pos 60_000);
      open_price = number (Decimal.of_ℕ 100);
      high = number (Decimal.of_ℕ 111);
      low = number (Decimal.of_ℕ 99);
      close = number (Decimal.of_ℕ 110);
      volume = number (Decimal.of_ℕ 0);
      close_time = integer (pos 119_999);
    })
    ∷ row (record {
      timestamp = integer (pos 120_000);
      open_price = number (Decimal.of_ℕ 110);
      high = number (Decimal.of_ℕ 112);
      low = number (Decimal.of_ℕ 108);
      close = number (Decimal.of_ℕ 109);
      volume = number (Decimal.of_ℕ 3);
      close_time = integer (pos 179_999);
    })
    ∷ []

parse_klines-Ensures_example :
    Ensures
      (λ candles. All (IsCandle 130_000) candles × AreRead payload candles × IsAscending candles)
      (parse_klines payload 130_000)
parse_klines-Ensures_example = parse_klines-Ensures payload 130_000
