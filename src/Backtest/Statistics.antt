-- ===== src/Backtest/Statistics.antt =====
-- `BacktestStatistics.compute` of backtest/metrics.py: what follows the loop over the trades.
use tool_trade.Common.{ℕ, ◌+◌, ◌/◌, Option, none, some, List, [], ◌∷◌, ◌==◌, length, if◌then◌else◌}
use tool_trade.Decimal
use tool_trade.Decimal.{Decimal}
use tool_trade.Result.{Result, ok, err, ◌>>=◌, backtest_metric}
use tool_trade.Demo.Account.{divide}
use tool_trade.Backtest.Config.{BacktestConfig}
use tool_trade.Backtest.Records.{BacktestResult}
use tool_trade.Backtest.Metrics.{
  Tally, empty_tally, nothing, completed, larger, count_trades, percent, ratio,
}

-- The drawdown so far, and the peak that it is below.
pub record Drawdown : Type 0 where
  pub peak : Decimal
  pub max_dd : Decimal
  pub max_dd_peak : Decimal

abbrev pub larger_value : Decimal → Decimal → Decimal
larger_value peak point = if Decimal.lt peak point then point else peak

abbrev pub with_drawdown : Decimal → Decimal → Drawdown → Drawdown
with_drawdown peak drawdown d =
    if Decimal.lt d.max_dd drawdown
    then record { peak = peak; max_dd = drawdown; max_dd_peak = peak }
    else record d { peak = peak }

abbrev pub at_point : Drawdown → Decimal → Drawdown
at_point d point =
    let peak = larger_value d.peak point in with_drawdown peak (Decimal.sub peak point) d

unfoldable pub walk : Drawdown → List Decimal → Drawdown
walk d [] = d
walk d (point ∷ rest) = walk (at_point d point) rest

abbrev pub at_start : Decimal → Drawdown
at_start first = record { peak = first; max_dd = nothing; max_dd_peak = first }

unfoldable pub curve_drawdown : List Decimal → Result Drawdown
unfolding walk
curve_drawdown [] = err backtest_metric
curve_drawdown (first ∷ rest) = ok (walk (at_start first) (first ∷ rest))

-- The statistics that are not the result's own counts.
pub record BacktestStatistics : Type 0 where
  pub result : BacktestResult
  pub tally : Tally
  pub win_rate : Option Decimal
  pub long_win_rate : Option Decimal
  pub short_win_rate : Option Decimal
  pub profit_factor : Option Decimal
  pub average_pnl : Option Decimal
  pub average_win : Option Decimal
  pub average_loss : Option Decimal
  pub average_r : Option Decimal
  pub average_holding_time : Option ℕ
  pub max_holding_time : Option ℕ
  pub drawdown : Drawdown
  pub total_return_pct : Option Decimal
  pub max_drawdown_pct : Option Decimal

-- `_ratio(total, Decimal(count)) if count else None`
abbrev pub average : Decimal → ℕ → Result (Option Decimal)
average total n = if n == 0 then ok none else ratio total (Decimal.of_ℕ n)

abbrev pub factor : Decimal → Decimal → Result (Option Decimal)
factor profit loss =
    if Decimal.lt nothing loss then (divide profit loss >>= λ q. ok (some q)) else ok none

abbrev pub total_of : List ℕ → ℕ
total_of [] = 0
total_of (n ∷ ns) = n + total_of ns

abbrev pub largest_of : List ℕ → Option ℕ
largest_of [] = none
largest_of (n ∷ ns) = elim (largest_of ns) [ none ↦ some n | some m ↦ some (larger m n) ]

-- A time is there only where a trade is.
abbrev pub average_time : List ℕ → ℕ → Option ℕ
average_time [] n = none
average_time (h ∷ hs) n = if n == 0 then none else some (total_of (h ∷ hs) / n)

unfoldable pub compute : BacktestConfig → BacktestResult → Result BacktestStatistics
unfolding count_trades percent ratio curve_drawdown
compute config r = do
  let trades = completed r.state.trades
  t ← count_trades trades empty_tally
  average_r ← average (Decimal.sum t.r_values nothing) (length trades)
  average_pnl ← average t.net_sum (length trades)
  average_win ← average t.gross_profit t.wins
  average_loss ← average t.gross_loss t.losses
  profit_factor ← factor t.gross_profit t.gross_loss
  win_rate ← percent (Decimal.of_ℕ t.wins) (Decimal.of_ℕ (length trades))
  long_win_rate ← percent (Decimal.of_ℕ t.long_wins) (Decimal.of_ℕ t.long_trades)
  short_win_rate ← percent (Decimal.of_ℕ t.short_wins) (Decimal.of_ℕ t.short_trades)
  drawdown ← curve_drawdown r.state.equity_curve
  max_drawdown_pct ← percent drawdown.max_dd drawdown.max_dd_peak
  total_return_pct ←
      percent (Decimal.sub r.state.balance config.initial_balance) config.initial_balance
  ok (record {
    result = r;
    tally = t;
    win_rate = win_rate;
    long_win_rate = long_win_rate;
    short_win_rate = short_win_rate;
    profit_factor = profit_factor;
    average_pnl = average_pnl;
    average_win = average_win;
    average_loss = average_loss;
    average_r = average_r;
    average_holding_time = average_time t.holding_times (length trades);
    max_holding_time = largest_of t.holding_times;
    drawdown = drawdown;
    total_return_pct = total_return_pct;
    max_drawdown_pct = max_drawdown_pct;
  })
