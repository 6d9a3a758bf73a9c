-- ===== src/Backtest/Fills.antt =====
-- The fills of backtest/engine.py: `_slippage_factor`, `_open_position`, `_close_position`,
-- `_funding_cost`, `_pending_event` and `_finalize_trade`.
use tool_trade.Common.{
  ◌-◌, Bool, true, false, ◌&&◌, Option, none, some, List, [], ◌∷◌, leb, if◌then◌else◌,
}
use tool_trade.Decimal
use tool_trade.Decimal.{Decimal}
use tool_trade.Models.{Direction, number, CloseReason, tp, sl, Timestamp}
use tool_trade.Result.{Result, ok, ◌>>=◌}
use tool_trade.Demo.Account.{divide, pays_up, slipped, resolve_quantity, gross_pnl, exit_fee}
use tool_trade.Monitor.Candles
use tool_trade.Monitor.Candles.{MonitorOutcome}
use tool_trade.Backtest.Config.{BacktestConfig}
use tool_trade.Backtest.Records.{Fill, Exit, ActiveSignal, BacktestTrade, PendingEvent}

unfoldable pub fill_factor : Decimal → Direction → Bool → Result Decimal
fill_factor bps direction entering =
    if Decimal.eq bps (Decimal.of_ℕ 0)
    then ok (Decimal.of_ℕ 1)
    else (divide bps (Decimal.of_ℕ 10000) >>= λ slip.
        ok (slipped (pays_up direction entering) slip))

-- The fill of `_open_position`.
unfoldable pub open_fill : BacktestConfig → ActiveSignal → Timestamp → Decimal → Result Fill
unfolding fill_factor
open_fill config a minute_ts balance = do
  factor ← fill_factor config.slippage_bps a.direction true
  let entry_exec = Decimal.mul a.entry factor
  sized ←
      resolve_quantity (number balance) (number config.margin_per_trade) config.leverage
        (number config.risk_percent) (number entry_exec) (number a.stop_loss)
  let notional = Decimal.mul sized.0 entry_exec
  ok (record {
    entry_time = minute_ts;
    entry_price = entry_exec;
    quantity = sized.0;
    position_size = notional;
    entry_fee = Decimal.mul notional config.fee_rate;
    risk_amount = Decimal.mul (Decimal.abs (Decimal.sub entry_exec a.stop_loss)) sized.0;
  })

-- `_funding_cost`: the rates from the entry to the exit, each on the notional.
abbrev pub funding_from :
    List (Timestamp × Decimal) → Timestamp → Timestamp → Decimal → Decimal → Decimal
funding_from [] start end size total = total
funding_from ((at, rate) ∷ rest) start end size total =
    funding_from rest start end size
      (if leb start at && leb at end then Decimal.add total (Decimal.mul rate size) else total)

abbrev pub funding_cost : BacktestConfig → Fill → Timestamp → Decimal
funding_cost config f exit_time =
    funding_from config.funding_rates f.entry_time exit_time f.position_size (Decimal.of_ℕ 0)

abbrev pub exit_level : MonitorOutcome → ActiveSignal → Decimal
exit_level Candles.tp_hit a = a.take_profit
exit_level _ a = a.stop_loss

abbrev pub close_reason : MonitorOutcome → CloseReason
close_reason Candles.tp_hit = tp
close_reason _ = sl

-- `net / risk if risk > 0 else None`
abbrev pub r_multiple : Decimal → Decimal → Result (Option Decimal)
r_multiple net risk =
    if Decimal.lt (Decimal.of_ℕ 0) risk then (divide net risk >>= λ r. ok (some r)) else ok none

-- The exit of `_close_position`.
unfoldable pub close_exit :
    BacktestConfig → ActiveSignal → Fill → MonitorOutcome → Timestamp → Result Exit
unfolding fill_factor
close_exit config a f outcome minute_ts = do
  factor ← fill_factor config.slippage_bps a.direction false
  let exit_exec = Decimal.mul (exit_level outcome a) factor
  gross ← gross_pnl a.direction (number f.entry_price) (number exit_exec) (number f.quantity)
  fee ← exit_fee (number exit_exec) (number f.quantity) (number config.fee_rate)
  let funding = funding_cost config f minute_ts
  let net = Decimal.sub (Decimal.sub (Decimal.sub gross f.entry_fee) fee) funding
  r ← r_multiple net f.risk_amount
  ok (record {
    exit_time = minute_ts;
    exit_price = exit_exec;
    exit_fee = fee;
    funding_cost = funding;
    gross_pnl = gross;
    net_pnl = net;
    r_multiple = r;
    outcome = close_reason outcome;
  })

abbrev option_map {ℓ κ} : {A : Type ℓ} {B : Type κ} → (A → B) → Option A → Option B
option_map f none = none
option_map f (some a) = some (f a)

-- `_pending_event`
unfoldable pub pending_event : ActiveSignal → PendingEvent
pending_event a = record {
  signal_candle_ts = a.signal_candle_ts;
  decision_time = a.decision_time;
  direction = a.direction;
  entry_level = a.entry;
  stop_level = a.stop_loss;
  take_profit_level = a.take_profit;
  entered_at = option_map (λ (f : Fill). f.entry_time) a.fill;
  closed_at = option_map (λ (e : Exit). e.exit_time) a.exit;
  outcome = option_map (λ (e : Exit). e.outcome) a.exit;
  trade_index = a.ndx;
}

-- `_finalize_trade` of a signal that was entered. The exit is not before the entry.
unfoldable pub finalize_trade : ActiveSignal → Fill → BacktestTrade
finalize_trade a f = record {
  signal = a;
  fill = f;
  exit = a.exit;
  holding_time = option_map (λ (e : Exit). e.exit_time - f.entry_time) a.exit;
}
