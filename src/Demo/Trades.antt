-- ===== src/Demo/Trades.antt =====
-- `DemoRepository` of database/database.py, the part on trades.
use tool_trade.Common.{
  ℕ, ◌+◌, not, Option, some, List, [], ◌∷◌, ◌++◌, ◌==◌, if◌then◌else◌, ℤ, pos, negsuc, find, select,
  any, update_where, count, take, reverse,
}
use tool_trade.Decimal
use tool_trade.Decimal.{Decimal}
use tool_trade.Models.{
  Direction, is_direction, Value, IntArg, Outcome, win, loss, other, Timestamp, to_decimal,
  to_decimal_signed,
}
use tool_trade.Result.{
  Result, ok, err, raise_if, or_raise, demo_validation, demo_not_found, demo_duplicate,
  sqlite_constraint, invalid_operation,
}
use tool_trade.SignalRepository.Types.{given_or}
use tool_trade.Store.{
  Db, Account, Position, closed, Trade, Action, ◌>>=◌, ◌>>◌, pure, raise, lift, gets, modify,
  transaction,
}
use tool_trade.Demo.Ledger.{has_account_id, has_position_id, trade_of, check_leverage, with_balance}
use tool_trade.Demo.Positions.{has_parents, matches}

pub record TradeArgs : Type 0 where
  pub position_id : ℕ
  pub signal_id : ℕ
  pub account_id : ℕ
  pub side : Direction
  pub entry_price : Value
  pub exit_price : Value
  pub quantity : Value
  pub margin : Value
  pub position_size : Value
  pub leverage : IntArg
  pub gross_pnl : Value
  pub fee : Value
  pub net_pnl : Value
  pub pnl_percent : Value
  pub result : Outcome
  pub closed_at : Option Timestamp
  pub updated_at : Option Timestamp

-- `result not in ("WIN", "LOSS")`
abbrev pub check_outcome : Outcome → Result (Unit {0})
check_outcome win = ok tt
check_outcome loss = ok tt
check_outcome other = err demo_validation

abbrev pub add_trade : (ℕ → Trade) → Db → Db
add_trade row db = record db {
  trades = db.trades ++ (row db.next_trade ∷ []);
  next_trade = db.next_trade + 1;
}

abbrev pub close_row : Timestamp → Position → Position
close_row closed_time p = record p { status = closed; closed_at = some closed_time }

-- The INSERT of the trade; returns its row and the converted `net_pnl`.
unfoldable pub insert_trade : TradeArgs → ℕ → Position → Timestamp → Action (Trade × Decimal)
insert_trade args leverage position closed_time = do
  entry_price ← lift (to_decimal args.entry_price)
  exit_price ← lift (to_decimal args.exit_price)
  quantity ← lift (to_decimal args.quantity)
  margin ← lift (to_decimal args.margin)
  position_size ← lift (to_decimal args.position_size)
  gross_pnl ← lift (to_decimal_signed args.gross_pnl)
  fee ← lift (to_decimal args.fee)
  net_pnl ← lift (to_decimal_signed args.net_pnl)
  pnl_percent ← lift (to_decimal_signed args.pnl_percent)
  has_keys ← gets (has_parents args.account_id args.signal_id)
  lift (raise_if (not has_keys) sqlite_constraint)
  let row : ℕ → Trade = λ trade_id. record {
    id = trade_id;
    account_id = args.account_id;
    position_id = args.position_id;
    signal_id = args.signal_id;
    side = args.side;
    entry_price = entry_price;
    exit_price = exit_price;
    quantity = quantity;
    margin = margin;
    position_size = position_size;
    leverage = leverage;
    gross_pnl = gross_pnl;
    fee = fee;
    net_pnl = net_pnl;
    pnl_percent = pnl_percent;
    result = args.result;
    opened_at = position.opened_at;
    closed_at = closed_time;
  }
  trade_id ← gets λ db. db.next_trade
  modify (add_trade row)
  pure (row trade_id, net_pnl)

abbrev pub next_balance : Account → Decimal → Decimal
next_balance account net = Decimal.add account.balance net

abbrev pub next_peak : Decimal → Decimal → Decimal
next_peak balance peak = if Decimal.lt peak balance then balance else peak

-- The new balance, equity and peak of the account, from its row inside the transaction. A NULL peak
-- is no number.
unfoldable pub update_after_trade : ℕ → Decimal → Timestamp → Action (Unit {0})
update_after_trade account_id net updated = do
  row ← gets λ db. find (has_account_id account_id) db.accounts
  account ← lift (or_raise row demo_not_found)
  peak ← lift (or_raise account.peak_equity invalid_operation)
  let balance = next_balance account net
  modify λ db. record db {
    accounts =
        update_where (has_account_id account_id)
          (with_balance balance balance (next_peak balance peak) updated) db.accounts;
  }

-- The body of the transaction.
unfoldable pub write_trade : TradeArgs → ℕ → Timestamp → Timestamp → Action Trade
unfolding insert_trade update_after_trade
write_trade args leverage closed_time updated = do
  found ← gets λ db. find (has_position_id args.position_id) db.positions
  position ← lift (or_raise found demo_not_found)
  duplicate ← gets λ db. any (trade_of args.signal_id) db.trades
  lift (raise_if duplicate demo_duplicate)
  modify λ db. record db {
    positions =
        update_where (has_position_id args.position_id) (close_row closed_time) db.positions;
  }
  inserted ← insert_trade args leverage position closed_time
  update_after_trade args.account_id (inserted.1) updated
  pure (inserted.0)

unfoldable pub record_trade : TradeArgs → Timestamp → Action Trade
unfolding write_trade
record_trade args now = do
  lift (raise_if (not (is_direction args.side)) demo_validation)
  leverage ← lift (check_leverage (some args.leverage))
  lift (check_outcome args.result)
  transaction
      (write_trade args leverage (given_or args.closed_at now) (given_or args.updated_at now))

abbrev pub get_trade_for_signal : ℕ → Action (Option Trade)
get_trade_for_signal signal_id = gets λ db. find (trade_of signal_id) db.trades

-- Newest first; the limit is an `int`. The position's symbol, for display, is left out.
pub list_trades : Option ℕ → ℤ → Action (List Trade)
list_trades account_id (negsuc _) = raise demo_validation
list_trades account_id (pos limit) =
    gets λ db.
      take limit (reverse (select (λ t. matches (λ i. t.account_id == i) account_id) db.trades))

pub count_trades : Option ℕ → Action ℕ
count_trades account_id =
    gets λ db. count (λ t. matches (λ i. t.account_id == i) account_id) db.trades
