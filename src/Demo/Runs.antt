-- ===== src/Demo/Runs.antt =====
-- Sequences of the executor's operations.
use tool_trade.Common.{Option, List, [], ◌∷◌, arith}
use tool_trade.Models.{Timestamp, Signal}
use tool_trade.Store.{Db, empty_db}
use tool_trade.Demo.Fills.{Executor}
use tool_trade.Demo.Executor.{open_position, close_position, reconcile}
use tool_trade.Demo.Balance.{IsLedger}
use tool_trade.Demo.Lifecycle.{open_position-IsLedger, close_position-IsLedger, reconcile-IsLedger}

pub data DemoCall : Type 0 where
  on_opened : Option Signal → DemoCall
  on_closed : Option Signal → Option Timestamp → DemoCall
  on_restart : Option Signal → DemoCall

-- The tables after the call at that time, whether it returns or raises.
abbrev pub run_demo : Executor → DemoCall → Timestamp → Db → Db
run_demo ex (on_opened s) now db = (open_position ex s now db).1
run_demo ex (on_closed s closed_at) now db = (close_position ex s closed_at now db).1
run_demo ex (on_restart s) now db = (reconcile ex s now db).1

abbrev pub run_demo_all : Executor → List (DemoCall × Timestamp) → Db → Db
run_demo_all ex [] db = db
run_demo_all ex ((call, now) ∷ rest) db = run_demo_all ex rest (run_demo ex call now db)

run_demo-IsLedger :
    (ex : Executor) (c : DemoCall) (now : Timestamp) (db : Db)
    → IsLedger db
    → IsLedger (run_demo ex c now db)
run_demo-IsLedger ex (on_opened s) now db v = open_position-IsLedger ex s now db v
run_demo-IsLedger ex (on_closed s closed_at) now db v =
    close_position-IsLedger ex s closed_at now db v
run_demo-IsLedger ex (on_restart s) now db v = reconcile-IsLedger ex s now db v

-- However the executor opens and closes positions and reconciles them, for whatever signals, returning
-- or raising: every balance stays the initial balance and the net profits of the account's trades,
-- added in their order, below the peak; a signal has one position and one trade at most; and account
-- ids are unique.
pub run_demo_all-IsLedger :
    (ex : Executor) (calls : List (DemoCall × Timestamp)) (db : Db)
    → IsLedger db
    → IsLedger (run_demo_all ex calls db)
run_demo_all-IsLedger ex [] db v = v
run_demo_all-IsLedger ex ((c, now) ∷ rest) db v =
    run_demo_all-IsLedger ex rest (run_demo ex c now db) (run_demo-IsLedger ex c now db v)

pub empty_db-IsLedger : IsLedger empty_db
empty_db-IsLedger = record {
  accounts_once = λ _. omega arith;
  positions_once = λ _. omega arith;
  trades_once = λ _. omega arith;
  account_ids = tt;
  trade_accounts = tt;
  balances = tt;
}
