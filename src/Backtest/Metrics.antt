-- ===== src/Backtest/Metrics.antt =====
-- The loop of `BacktestStatistics.compute` over the trades, of backtest/metrics.py. Decimals are finite
-- here, so that the checks `_finite` of values that are set pass.
use tool_trade.Common.{
  ℕ, ◌+◌, Bool, true, false, not, Option, none, some, List, [], ◌∷◌, ◌++◌, leb, if◌then◌else◌,
}
use tool_trade.Decimal
use tool_trade.Decimal.{Decimal}
use tool_trade.Models.{long, short, CloseReason, tp, sl, number}
use tool_trade.Result.{Result, ok, ◌>>=◌}
use tool_trade.Demo.Account.{divide, gross_pnl}
use tool_trade.Backtest.Records.{Exit, BacktestTrade}
use tool_trade.Backtest.Replay.{is_long}

-- The local variables of the loop over the trades.
pub record Tally : Type 0 where
  pub wins : ℕ
  pub losses : ℕ
  pub gross_profit : Decimal
  pub gross_loss : Decimal
  pub gross_sum : Decimal
  pub net_sum : Decimal
  pub fees_sum : Decimal
  pub funding_sum : Decimal
  pub slippage_cost : Decimal
  pub long_wins : ℕ
  pub long_losses : ℕ
  pub short_wins : ℕ
  pub short_losses : ℕ
  pub long_trades : ℕ
  pub short_trades : ℕ
  pub long_net : Decimal
  pub short_net : Decimal
  pub r_values : List Decimal
  pub holding_times : List ℕ
  pub consecutive_wins : ℕ
  pub consecutive_losses : ℕ
  pub best_streak : ℕ
  pub worst_streak : ℕ

abbrev pub nothing : Decimal
nothing = Decimal.of_ℕ 0

abbrev pub empty_tally : Tally
empty_tally = record {
  wins = 0;
  losses = 0;
  gross_profit = nothing;
  gross_loss = nothing;
  gross_sum = nothing;
  net_sum = nothing;
  fees_sum = nothing;
  funding_sum = nothing;
  slippage_cost = nothing;
  long_wins = 0;
  long_losses = 0;
  short_wins = 0;
  short_losses = 0;
  long_trades = 0;
  short_trades = 0;
  long_net = nothing;
  short_net = nothing;
  r_values = [];
  holding_times = [];
  consecutive_wins = 0;
  consecutive_losses = 0;
  best_streak = 0;
  worst_streak = 0;
}

-- The trades with an exit at the take profit or the stop loss, each with its exit.
abbrev pub is_exit : CloseReason → Bool
is_exit tp = true
is_exit sl = true
is_exit _ = false

abbrev pub completed : List BacktestTrade → List (BacktestTrade × Exit)
completed [] = []
completed (t ∷ ts) = elim t.exit [
  | none ↦ completed ts
  | some x ↦ if is_exit x.outcome then (t, x) ∷ completed ts else completed ts
]

abbrev pub one_if : Bool → ℕ
one_if b = if b then 1 else 0

abbrev pub larger : ℕ → ℕ → ℕ
larger m n = if leb n m then m else n

abbrev pub add_sums : Exit → Decimal → Tally → Tally
add_sums x entry_fee t = record t {
  gross_sum = Decimal.add t.gross_sum x.gross_pnl;
  net_sum = Decimal.add t.net_sum x.net_pnl;
  fees_sum = Decimal.add t.fees_sum (Decimal.add entry_fee x.exit_fee);
  funding_sum = Decimal.add t.funding_sum x.funding_cost;
}

abbrev pub add_win : Bool → Decimal → Tally → Tally
add_win is_long gross t = record t {
  gross_profit = Decimal.add t.gross_profit gross;
  wins = t.wins + 1;
  long_wins = t.long_wins + one_if is_long;
  short_wins = t.short_wins + one_if (not is_long);
  consecutive_wins = t.consecutive_wins + 1;
  consecutive_losses = 0;
}

abbrev pub add_loss : Bool → Decimal → Tally → Tally
add_loss is_long gross t = record t {
  gross_loss = Decimal.add t.gross_loss (Decimal.neg gross);
  losses = t.losses + 1;
  long_losses = t.long_losses + one_if is_long;
  short_losses = t.short_losses + one_if (not is_long);
  consecutive_losses = t.consecutive_losses + 1;
  consecutive_wins = 0;
}

abbrev pub add_streaks : Tally → Tally
add_streaks t = record t {
  best_streak = larger t.best_streak t.consecutive_wins;
  worst_streak = larger t.worst_streak t.consecutive_losses;
}

abbrev pub add_side : Bool → Decimal → Tally → Tally
add_side true net t = record t {
  long_trades = t.long_trades + 1;
  long_net = Decimal.add t.long_net net;
}
add_side false net t = record t {
  short_trades = t.short_trades + 1;
  short_net = Decimal.add t.short_net net;
}

abbrev pub append {ℓ} : {A : Type ℓ} → List A → Option A → List A
append xs none = xs
append xs (some x) = xs ++ (x ∷ [])

abbrev pub add_lists : Option Decimal → Option ℕ → Tally → Tally
add_lists r holding t = record t {
  r_values = append t.r_values r;
  holding_times = append t.holding_times holding;
}

abbrev pub add_slippage : Decimal → Decimal → Tally → Tally
add_slippage level_gross gross t = record t {
  slippage_cost = Decimal.add t.slippage_cost (Decimal.abs (Decimal.sub level_gross gross));
}

-- A win is a positive net profit.
abbrev pub add_result : Bool → Exit → Tally → Tally
add_result is_long x t =
    if Decimal.lt nothing x.net_pnl
    then add_win is_long x.gross_pnl t
    else add_loss is_long x.gross_pnl t

abbrev pub configured_exit : CloseReason → BacktestTrade → Decimal
configured_exit tp t = t.signal.take_profit
configured_exit _ t = t.signal.stop_loss

-- `_level_pnl`
unfoldable pub level_pnl : BacktestTrade → Exit → Result Decimal
level_pnl t x =
    gross_pnl (if is_long t.signal.direction then long else short) (number t.signal.entry)
      (number (configured_exit x.outcome t)) (number t.fill.quantity)

abbrev pub counted : BacktestTrade → Exit → Decimal → Tally → Tally
counted t x level_gross tally =
    let side = is_long t.signal.direction in
    add_slippage level_gross x.gross_pnl (
      add_lists x.r_multiple t.holding_time (
        add_side side x.net_pnl
          (add_streaks (add_result side x (add_sums x t.fill.entry_fee tally)))))

unfoldable pub count_trades : List (BacktestTrade × Exit) → Tally → Result Tally
unfolding level_pnl
count_trades [] tally = ok tally
count_trades ((t, x) ∷ rest) tally =
    level_pnl t x >>= λ level_gross. count_trades rest (counted t x level_gross tally)

-- `_percent` and `_ratio`
unfoldable pub percent : Decimal → Decimal → Result (Option Decimal)
percent numerator denominator =
    if Decimal.eq denominator nothing
    then ok none
    else (divide numerator denominator >>= λ q. ok (some (Decimal.mul q (Decimal.of_ℕ 100))))

unfoldable pub ratio : Decimal → Decimal → Result (Option Decimal)
ratio numerator denominator =
    if Decimal.eq denominator nothing
    then ok none
    else (divide numerator denominator >>= λ q. ok (some q))
