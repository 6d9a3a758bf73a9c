-- ===== src/Backtest/Tests.antt =====
-- A run over two hours, and the theorems at it.
use tool_trade.Common.{
  ℕ, ◌+◌, ◌-◌, ◌≡◌, refl, All, true, none, some, Option, List, [], ◌∷◌, pos, sub_ℕ, digits, ◌+ℤ◌,
  ◌-ℤ◌, ◌*ℤ◌,
}
use tool_trade.Decimal
use tool_trade.Decimal.{Decimal}
use tool_trade.Market.{validate_symbol, validate_interval}
use tool_trade.Market.Klines.{Candle}
use tool_trade.Models.{wait, integer, to_decimal, validate_signal_prices}
use tool_trade.Monitor.Candles.{touch_exit, touch_entry}
use tool_trade.Result.{Result, ok, err, is_ok, Ensures}
use tool_trade.Samples.{sample_analysis}
use tool_trade.Text.{codes, strip, upper, lower}
use tool_trade.Validator.{
  SignalAnalysis, validate_decision, validate_confidence, validate_funding_crowd, validate_htf_bias,
  check_risk_reward, check_fee_cover, check_atr, check_bounds, validate_trade_levels, check_prices,
  validate_analysis,
}
use tool_trade.Validator.Guardrails.{defaults}
use tool_trade.Backtest.Config.{BacktestConfig, interval_to_ms}
use tool_trade.Backtest.Data.{HistoricalData, validate_historical_data}
use tool_trade.Backtest.Records.{BacktestResult}
use tool_trade.Backtest.Decisions.{
  Engine, on_candle, after_blackout, decide_candle, on_answer, on_decision, on_validated,
}
use tool_trade.Demo.Account.{
  require_positive, require_nonnegative, risk_amount, position_quantity, resolve_quantity,
  gross_pnl, exit_fee,
}
use tool_trade.Backtest.Fills.{open_fill, close_exit, fill_factor, finalize_trade, pending_event}
use tool_trade.Backtest.Minutes.{
  drain, drain_all, watch, monitor, on_active, on_fill, on_entry, on_exit,
}
use tool_trade.Backtest.Replay.{run, loop, turn, summary}
use tool_trade.Backtest.Totals.{IsTallied, run-IsTallied}
use tool_trade.Backtest.Equity.{IsBalanced, run-IsBalanced}
use tool_trade.Backtest.Moments.{IsTimed}
use tool_trade.Backtest.Times.{run-IsTimed}
use tool_trade.Backtest.Statistics.{compute}
use tool_trade.Backtest.Scores.{IsScored, run-IsScored}
use tool_trade.Backtest.Computed.{run-is_computed}
use tool_trade.Backtest.Drawdown.{IsDrawdown, run-IsDrawdown}

abbrev config : BacktestConfig
config = record {
  symbol = codes "BTCUSDT";
  timeframe = codes "1h";
  execution_interval = codes "1m";
  initial_balance = Decimal.of_ℕ 1000;
  margin_per_trade = Decimal.of_ℕ 100;
  leverage = integer (pos 5);
  risk_percent = Decimal.of_ℕ 1;
  fee_rate = Decimal.literal 4 4;
  slippage_bps = Decimal.of_ℕ 0;
  funding_rates = [];
  min_candles = 1;
  max_candles = 500;
}

-- A closed candle of that length between two prices.
abbrev candle : ℕ → ℕ → ℕ → ℕ → Candle
candle ms at low high = record {
  timestamp = at;
  open_price = Decimal.of_ℕ low;
  high = Decimal.of_ℕ high;
  low = Decimal.of_ℕ low;
  close = Decimal.of_ℕ high;
  volume = Decimal.of_ℕ 1;
  close_time = (at + ms) - 1;
  is_closed = true;
}

abbrev data_ : HistoricalData
data_ = record {
  symbol = codes "BTCUSDT";
  timeframe = codes "1h";
  execution_interval = codes "1m";
  hour_candles = candle 3_600_000 0 99 102 ∷ candle 3_600_000 3_600_000 99 111 ∷ [];
  minute_candles =
      candle 60_000 0 99 102
      ∷ candle 60_000 3_600_000 99 101
      ∷ candle 60_000 3_660_000 104 111
      ∷ candle 60_000 7_200_000 104 111
      ∷ [];
  finer_candles = none;
}

-- LONG on the first candle, WAIT on those after it.
abbrev decide : List Candle → Result (Option SignalAnalysis)
decide (c ∷ []) = ok (some sample_analysis)
decide _ = ok (some (record sample_analysis { decision = wait }))

abbrev engine : Engine
engine = record {
  config = config;
  indicators = λ window. ok tt;
  decide = decide;
  provider = codes "openai";
  model = codes "m";
  guards = defaults;
  blackout = none;
}

abbrev profit : Result BacktestResult → Option (Decimal × ℕ)
profit (ok r) = some (r.state.balance, r.state.trades_completed)
profit (err e) = none

took_profit :
    profit (run engine data_) ≡ some (record { coeff = pos 10_198_320; exp = sub_ℕ 0 4 }, 1)
unfolding run interval_to_ms loop turn drain drain_all watch monitor on_active on_fill on_entry
    on_exit open_fill close_exit fill_factor require_positive require_nonnegative risk_amount
    position_quantity resolve_quantity gross_pnl exit_fee on_candle after_blackout decide_candle
    on_answer on_decision on_validated summary finalize_trade pending_event touch_exit touch_entry
    validate_interval strip lower upper validate_analysis validate_decision check_prices to_decimal
    validate_signal_prices validate_confidence validate_funding_crowd validate_htf_bias
    validate_trade_levels check_risk_reward check_fee_cover check_atr check_bounds Decimal.le
    Decimal.add Decimal.sub Decimal.mul Decimal.div Decimal.fix Decimal.half_even Decimal.quotient
    digits ◌+ℤ◌ ◌-ℤ◌ ◌*ℤ◌
took_profit = refl

run-IsTallied_example : Ensures (IsTallied data_ config) (run engine data_)
run-IsTallied_example = run-IsTallied engine data_

run-IsBalanced_example : Ensures (λ r. IsBalanced (Decimal.of_ℕ 1000) r.state) (run engine data_)
run-IsBalanced_example = run-IsBalanced engine data_

valid : validate_historical_data data_ ≡ ok tt
unfolding validate_historical_data interval_to_ms validate_symbol validate_interval strip upper
    lower
valid = refl

run-IsTimed_example :
    Ensures
      (λ r.
        (period : ℕ) × (interval_to_ms (codes "1h") ≡ ok period)
        × All (IsTimed period) r.state.trades)
      (run engine data_)
run-IsTimed_example = run-IsTimed engine data_ valid

run-IsScored_example :
    Ensures
      (λ r. Ensures (λ s. IsScored r.state.trades_completed s.tally) (compute config r))
      (run engine data_)
run-IsScored_example = run-IsScored engine data_

run-IsDrawdown_example :
    Ensures
      (λ r.
        Ensures
          (λ s. IsDrawdown (Decimal.of_ℕ 1000) r.state.equity_curve s.drawdown)
          (compute config r))
      (run engine data_)
run-IsDrawdown_example = run-IsDrawdown engine data_

run-is_computed_example : Ensures (λ r. is_ok (compute config r) ≡ true) (run engine data_)
run-is_computed_example = run-is_computed engine data_
