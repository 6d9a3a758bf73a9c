-- ===== src/Backtest/Ascending.antt =====
-- The order of the minute candles that backtest/data.py validates.
use tool_trade.Common.{◌<◌, ◌≡◌, List, [], ◌∷◌, arith, leb}
use tool_trade.Market.Order.{IsAscending, IsAscending-cons}
use tool_trade.Market.Klines.{Candle}
use tool_trade.Result.{
  ok, Ensures, Ensures-always, Ensures-map, Ensures-eq_ok, Ensures-bind, raise_if, raise_if-eq-ok,
  backtest_data,
}
use tool_trade.Backtest.Config.{interval_to_ms}
use tool_trade.Market.{validate_symbol}
use tool_trade.Backtest.Data.{
  is_empty_series, check_closed, check_finer, HistoricalData, validate_ascending,
  validate_historical_data,
}

ascend :
    (c : Candle) (cs : List Candle)
    → Ensures (λ _. IsAscending (c ∷ cs)) (validate_ascending (c ∷ cs))
ascend c [] = (tt, tt)
ascend c (d ∷ cs) =
    Ensures-bind (λ _. IsAscending (c ∷ d ∷ cs))
      (raise_if (leb (Candle.timestamp d) (Candle.timestamp c)) backtest_data) _
      λ _ passed.
        let later : Candle.timestamp c < Candle.timestamp d =
          let p = raise_if-eq-ok _ backtest_data passed in ground arith in
        Ensures-map (λ _. IsAscending (d ∷ cs)) (λ _. IsAscending (c ∷ d ∷ cs))
          (validate_ascending (d ∷ cs)) (λ _ rest. IsAscending-cons c d cs later rest) (ascend d cs)

ascending : (cs : List Candle) {u : Unit {0}} → validate_ascending cs ≡ ok u → IsAscending cs
ascending [] h = tt
ascending (c ∷ cs) {u} h =
    Ensures-eq_ok (λ _. IsAscending (c ∷ cs)) (validate_ascending (c ∷ cs)) u (ascend c cs) h

pub validate_historical_data-IsAscending :
    (d : HistoricalData) → Ensures (λ _. IsAscending d.minute_candles) (validate_historical_data d)
unfolding validate_historical_data
validate_historical_data-IsAscending d =
    let P = λ (_ : Unit {0}). IsAscending d.minute_candles in
    Ensures-bind P (validate_symbol d.symbol) _ λ _ _.
      Ensures-bind P (interval_to_ms d.timeframe) _ λ _ _.
        Ensures-bind P (interval_to_ms d.execution_interval) _ λ _ _.
          Ensures-bind P (raise_if (is_empty_series d.hour_candles) backtest_data) _ λ _ _.
            Ensures-bind P (raise_if (is_empty_series d.minute_candles) backtest_data) _ λ _ _.
              Ensures-bind P (check_closed d.hour_candles) _ λ _ _.
                Ensures-bind P (check_closed d.minute_candles) _ λ _ _.
                  Ensures-bind P (validate_ascending d.hour_candles) _ λ _ _.
                    Ensures-bind P (validate_ascending d.minute_candles) _ λ _ passed.
                      Ensures-always P (check_finer d.finer_candles)
                        λ _. ascending d.minute_candles passed
