-- ===== src/Demo/Tests.antt =====
-- The theorems on the demo account at concrete tables.
use tool_trade.Common.{
  ◌≡◌, ◌↔◌, ◌⊎◌, refl, true, none, some, List, [], ◌∷◌, pos, arith, ◌*ℤ◌, ◌+ℤ◌, ◌-ℤ◌, digits,
}
use tool_trade.Decimal
use tool_trade.Decimal.{Decimal, le, fix, add, sub, mul, div, quotient, half_even}
use tool_trade.Decimal.Order.{le_refl_lem}
use tool_trade.Models.{
  long, number, integer, win, tp_hit, Signal, to_decimal, to_decimal_signed, Timestamp,
}
use tool_trade.Result.{ok, Ensures}
use tool_trade.Samples.{sample_position, sample_signal, ledger_db}
use tool_trade.Store.{Db, Trade, empty_db}
use tool_trade.Store.Rules.{Runs}
use tool_trade.Text.{codes, strip}
use tool_trade.Demo.Account.{
  require_positive, require_nonnegative, total_fee, entry_fee, exit_fee, net_pnl, slippage_factor,
  resolve_quantity, gross_pnl, update_peak_equity, current_drawdown,
}
use tool_trade.Demo.Account.Equity.{peak_drawdown}
use tool_trade.Demo.Account.Pnl.{gross_pnl-sign}
use tool_trade.Demo.Account.Arguments.{IsAbove0}
use tool_trade.Demo.Account.Sizing.{IsSized, resolve_quantity-Ensures}
use tool_trade.Demo.Accounts.{Ensured, ensure_account-Runs}
use tool_trade.Demo.Balance.{IsLedger}
use tool_trade.Demo.Executor.{
  account_args, close_position, close_once, close_open, executor_account, open_position, open_once,
}
use tool_trade.Demo.Repeats.{close_position-again, open_position-again}
use tool_trade.Demo.Fills.{Executor, settle, percent_of}
use tool_trade.Demo.Reset.{Reset, reset_account-Runs}
use tool_trade.Demo.Ledger.{reset_account, ensure_account, check_leverage}
use tool_trade.Demo.Opening.{Opened, create_position-Runs}
use tool_trade.Demo.Recorded.{Recorded}
use tool_trade.Demo.Runs.{
  DemoCall, on_opened, on_closed, on_restart, run_demo_all, run_demo_all-IsLedger,
  empty_db-IsLedger,
}
use tool_trade.Demo.Positions.{PositionArgs, create_position}
use tool_trade.Demo.Trades.{TradeArgs, record_trade, write_trade, insert_trade, update_after_trade}

ledger_db-IsLedger : IsLedger ledger_db
ledger_db-IsLedger = record {
  accounts_once = λ i. ground arith;
  positions_once = λ i. ground arith;
  trades_once = λ i. omega arith;
  account_ids = (omega arith, tt);
  trade_accounts = tt;
  balances = ((refl, (_, refl, le_refl_lem _, le_refl_lem _)), tt);
}

abbrev sample_executor : Executor
sample_executor = record {
  config = record {
    initial_balance = number (Decimal.of_ℕ 1000);
    margin_per_trade = number (Decimal.of_ℕ 50);
    leverage = integer (pos 10);
    risk_percent = number (Decimal.of_ℕ 1);
    fee_rate = number (Decimal.literal 4 4);
    slippage_bps = number (Decimal.of_ℕ 0);
  };
  account_name = codes "demo";
}

abbrev demo_calls : List (DemoCall × Timestamp)
demo_calls =
    (on_opened (some sample_signal), 3)
    ∷ (on_closed (some (record sample_signal { status = tp_hit })) none, 4)
    ∷ (on_restart (some sample_signal), 5)
    ∷ []

run_demo_all-IsLedger_example : IsLedger (run_demo_all sample_executor demo_calls ledger_db)
run_demo_all-IsLedger_example =
    run_demo_all-IsLedger sample_executor demo_calls ledger_db ledger_db-IsLedger

abbrev sample_trade : TradeArgs
sample_trade = record {
  position_id = 1;
  signal_id = 1;
  account_id = 1;
  side = long;
  entry_price = number (Decimal.of_ℕ 100);
  exit_price = number (Decimal.of_ℕ 110);
  quantity = number (Decimal.of_ℕ 2);
  margin = number (Decimal.of_ℕ 50);
  position_size = number (Decimal.of_ℕ 200);
  leverage = integer (pos 10);
  gross_pnl = number (Decimal.of_ℕ 20);
  fee = number (Decimal.of_ℕ 1);
  net_pnl = number (Decimal.of_ℕ 19);
  pnl_percent = number (Decimal.of_ℕ 38);
  result = win;
  closed_at = some 9;
  updated_at = none;
}

abbrev sample_args : PositionArgs
sample_args = record {
  account_id = 1;
  signal_id = 1;
  symbol = codes "BTCUSDT";
  side = long;
  entry_price = number (Decimal.of_ℕ 100);
  quantity = number (Decimal.of_ℕ 2);
  position_size = number (Decimal.of_ℕ 200);
  margin = number (Decimal.of_ℕ 50);
  leverage = integer (pos 10);
  stop_loss = number (Decimal.of_ℕ 95);
  take_profit = number (Decimal.of_ℕ 110);
  opened_at = none;
}

-- The account and the signal, with no position yet.
abbrev unplaced_db : Db
unplaced_db = record ledger_db { positions = [] }

unplaced_db-IsLedger : IsLedger unplaced_db
unplaced_db-IsLedger = record {
  accounts_once = ledger_db-IsLedger.accounts_once;
  positions_once = λ i. omega arith;
  trades_once = ledger_db-IsLedger.trades_once;
  account_ids = ledger_db-IsLedger.account_ids;
  trade_accounts = ledger_db-IsLedger.trade_accounts;
  balances = ledger_db-IsLedger.balances;
}

create_position-Runs_example :
    Runs (Opened 1 unplaced_db) unplaced_db (create_position sample_args 10 unplaced_db)
create_position-Runs_example = create_position-Runs sample_args 10 unplaced_db unplaced_db-IsLedger

ensure_account-Runs_example :
    Runs
      (Ensured (codes "demo") empty_db)
      empty_db
      (ensure_account (account_args sample_executor) 10 empty_db)
ensure_account-Runs_example =
    ensure_account-Runs (account_args sample_executor) 10 empty_db empty_db-IsLedger

resolve_quantity-Ensures_example :
    Ensures
      (IsSized
        (number (Decimal.of_ℕ 1000))
        (number (Decimal.of_ℕ 50))
        (integer (pos 10))
        (number (Decimal.of_ℕ 1))
        (number (Decimal.of_ℕ 100))
        (number (Decimal.of_ℕ 95)))
      (resolve_quantity
        (number (Decimal.of_ℕ 1000))
        (number (Decimal.of_ℕ 50))
        (integer (pos 10))
        (number (Decimal.of_ℕ 1))
        (number (Decimal.of_ℕ 100))
        (number (Decimal.of_ℕ 95)))
resolve_quantity-Ensures_example =
    resolve_quantity-Ensures (number (Decimal.of_ℕ 1000)) (number (Decimal.of_ℕ 50))
      (integer (pos 10)) (number (Decimal.of_ℕ 1)) (number (Decimal.of_ℕ 100))
      (number (Decimal.of_ℕ 95))

gross_pnl-sign_example :
    ((gain : Decimal) × (gross_pnl long
          (number (Decimal.of_ℕ 100))
          (number (Decimal.of_ℕ 110))
          (number (Decimal.of_ℕ 2))
        ≡ ok gain)
      × IsAbove0 gain)
    × ((loss : Decimal) × (gross_pnl long
            (number (Decimal.of_ℕ 100))
            (number (Decimal.of_ℕ 95))
            (number (Decimal.of_ℕ 2))
          ≡ ok loss)
        × (Decimal.lt loss (Decimal.of_ℕ 0) ≡ true))
unfolding le ◌*ℤ◌
gross_pnl-sign_example =
    gross_pnl-sign long (Decimal.of_ℕ 100) (Decimal.of_ℕ 95) (Decimal.of_ℕ 110) (Decimal.of_ℕ 2)
      (refl, refl) refl refl refl refl

peak_drawdown_example :
    ((new : Decimal) × (update_peak_equity (number (Decimal.of_ℕ 1000)) (number (Decimal.of_ℕ 980))
        ≡ ok new)
      × (Decimal.le (Decimal.of_ℕ 1000) new ≡ true)
      × (Decimal.le (Decimal.of_ℕ 980) new ≡ true)
      × ((new ≡ Decimal.of_ℕ 1000) ⊎ (new ≡ Decimal.of_ℕ 980)))
    × ((loss : Decimal) × (current_drawdown (number (Decimal.of_ℕ 1000)) (number (Decimal.of_ℕ 980))
          ≡ ok loss)
        × (IsAbove0 loss ↔ (Decimal.lt (Decimal.of_ℕ 980) (Decimal.of_ℕ 1000) ≡ true))
        × (¬ (IsAbove0 loss) → loss ≡ Decimal.of_ℕ 0))
unfolding le ◌*ℤ◌
peak_drawdown_example = peak_drawdown (Decimal.of_ℕ 1000) (Decimal.of_ℕ 980) refl refl

abbrev exit_signal : Signal
exit_signal = record sample_signal { status = tp_hit; close_price = some (Decimal.of_ℕ 110) }

-- The trade of the exit at 110.
abbrev closed_trade : Trade
closed_trade = record {
  id = 1;
  account_id = 1;
  position_id = 1;
  signal_id = 1;
  side = long;
  entry_price = Decimal.of_ℕ 100;
  exit_price = Decimal.of_ℕ 110;
  quantity = Decimal.of_ℕ 2;
  margin = Decimal.of_ℕ 50;
  position_size = Decimal.of_ℕ 200;
  leverage = 10;
  gross_pnl = Decimal.of_ℕ 20;
  fee = Decimal.literal 1680 4;
  net_pnl = Decimal.literal 198_320 4;
  pnl_percent = Decimal.literal 3_966_400 5;
  result = win;
  opened_at = 2;
  closed_at = 4;
}

close_position-again_example :
    close_position sample_executor
      (some exit_signal)
      none
      9
      (close_position sample_executor (some exit_signal) none 4 ledger_db).1
    ≡ (
      ok (some closed_trade),
      (close_position sample_executor (some exit_signal) none 4 ledger_db).1,
    )
unfolding strip close_position close_once close_open executor_account ensure_account check_leverage
    settle percent_of slippage_factor require_positive require_nonnegative gross_pnl total_fee
    entry_fee exit_fee net_pnl record_trade write_trade insert_trade update_after_trade to_decimal
    to_decimal_signed le fix add sub mul div quotient half_even digits ◌*ℤ◌ ◌+ℤ◌ ◌-ℤ◌
close_position-again_example =
    close_position-again sample_executor exit_signal none none 4 9 ledger_db closed_trade
      ledger_db-IsLedger refl

open_position-again_example :
    open_position sample_executor
      (some sample_signal)
      9
      (open_position sample_executor (some sample_signal) 4 ledger_db).1
    ≡ (
      ok (some sample_position),
      (open_position sample_executor (some sample_signal) 4 ledger_db).1,
    )
unfolding open_position open_once
open_position-again_example =
    open_position-again sample_executor sample_signal 4 9 ledger_db sample_position
      ledger_db-IsLedger refl

reset_account-Runs_example :
    Runs
      (Reset 1 (number (Decimal.of_ℕ 500)) 9 ledger_db)
      ledger_db
      (reset_account 1 (number (Decimal.of_ℕ 500)) 9 ledger_db)
reset_account-Runs_example =
    reset_account-Runs 1 (number (Decimal.of_ℕ 500)) 9 ledger_db ledger_db-IsLedger
