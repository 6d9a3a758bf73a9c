-- ===== src/Demo/Fills.antt =====
-- demo/executor.py: the numbers of the positions that `DemoExecutor` opens and of the trades that it
-- records, from the formulas of demo/account.py.
use tool_trade.Common.{true, false, Option, none, some, pos, if◌then◌else◌}
use tool_trade.Decimal
use tool_trade.Decimal.{Decimal}
use tool_trade.Models.{number, integer, Outcome, win, loss, status_eq, tp_hit, Timestamp, Signal}
use tool_trade.Result.{Result, ok, ◌>>=◌}
use tool_trade.Store.{Account, Position}
use tool_trade.Text.{Text}
use tool_trade.Demo.Account.{
  DemoConfig, resolve_quantity, slippage_factor, gross_pnl, total_fee, net_pnl, divide,
}
use tool_trade.Demo.Positions.{PositionArgs}
use tool_trade.Demo.Trades.{TradeArgs}

pub record Executor : Type 0 where
  pub config : DemoConfig
  pub account_name : Text

-- The entry that is filled, the quantity and the notional.
unfoldable pub size_position : Executor → Signal → Account → Result PositionArgs
size_position ex s account = do
  factor ← slippage_factor ex.config.slippage_bps s.direction true
  let entry_exec = Decimal.mul s.entry factor
  sized ←
      resolve_quantity (number account.balance) (number account.margin_per_trade)
        (integer (pos account.leverage)) (number account.risk_percent) (number entry_exec)
        (number s.stop_loss)
  let quantity = sized.0
  ok (record {
    account_id = account.id;
    signal_id = s.id;
    symbol = s.symbol;
    side = s.direction;
    entry_price = number entry_exec;
    quantity = number quantity;
    position_size = number (Decimal.mul quantity entry_exec);
    margin = number account.margin_per_trade;
    leverage = integer (pos account.leverage);
    stop_loss = number s.stop_loss;
    take_profit = number s.take_profit;
    opened_at = none;
  })

-- The level that the exit fills at, before slippage.
abbrev pub exit_level : Signal → Position → Decimal
exit_level s p = elim s.close_price [
  | some price ↦ price
  | none ↦ if status_eq s.status tp_hit then p.take_profit else p.stop_loss
]

-- `"WIN" if net > 0 else "LOSS"`
abbrev pub outcome_of : Decimal → Outcome
outcome_of net = if Decimal.lt (Decimal.of_ℕ 0) net then win else loss

-- `(net / margin) * 100 if margin else 0`
unfoldable pub percent_of : Decimal → Decimal → Result Decimal
percent_of net margin =
    if Decimal.eq margin (Decimal.of_ℕ 0)
    then ok (Decimal.of_ℕ 0)
    else (divide net margin >>= λ q. ok (Decimal.mul q (Decimal.of_ℕ 100)))

-- The numbers of the trade that closes a position.
unfoldable pub settle : Executor → Signal → Position → Account → Option Timestamp → Result TradeArgs
unfolding percent_of
settle ex s p account closed_at = do
  factor ← slippage_factor ex.config.slippage_bps s.direction false
  let exit_exec = Decimal.mul (exit_level s p) factor
  gross ← gross_pnl s.direction (number p.entry_price) (number exit_exec) (number p.quantity)
  fees ←
      total_fee (number p.position_size) (number exit_exec) (number p.quantity)
        (number account.fee_rate)
  net ←
      net_pnl s.direction (number p.entry_price) (number exit_exec) (number p.quantity)
        (number p.position_size) (number account.fee_rate)
  percent ← percent_of net p.margin
  ok (record {
    position_id = p.id;
    signal_id = s.id;
    account_id = account.id;
    side = s.direction;
    entry_price = number p.entry_price;
    exit_price = number exit_exec;
    quantity = number p.quantity;
    margin = number p.margin;
    position_size = number p.position_size;
    leverage = integer (pos p.leverage);
    gross_pnl = number gross;
    fee = number fees;
    net_pnl = number net;
    pnl_percent = number percent;
    result = outcome_of net;
    closed_at = closed_at;
    updated_at = none;
  })
