-- ===== src/Demo/Positions.antt =====
-- `DemoRepository` of database/database.py, the part on positions.
use tool_trade.Common.{
  ℕ, ◌+◌, Bool, true, false, not, ◌&&◌, Option, none, some, List, [], ◌∷◌, ◌++◌, ◌==◌, find, select,
  any,
}
use tool_trade.Market.{validate_symbol}
use tool_trade.Models.{Direction, is_direction, Value, IntArg, Timestamp, to_decimal}
use tool_trade.Result.{raise_if, demo_validation, sqlite_constraint}
use tool_trade.SignalRepository.Delete.{exists_id}
use tool_trade.SignalRepository.Types.{given_or}
use tool_trade.Store.{
  Db, Position, PositionStatus, open_, closed, Action, ◌>>=◌, ◌>>◌, pure, lift, gets, modify,
  transaction,
}
use tool_trade.Text.{Text}
use tool_trade.Demo.Ledger.{has_account_id, position_of, check_leverage, or_else}

pub record PositionArgs : Type 0 where
  pub account_id : ℕ
  pub signal_id : ℕ
  pub symbol : Text
  pub side : Direction
  pub entry_price : Value
  pub quantity : Value
  pub position_size : Value
  pub margin : Value
  pub leverage : IntArg
  pub stop_loss : Value
  pub take_profit : Value
  pub opened_at : Option Timestamp

-- The foreign keys of a position and of a trade: the account and the signal exist.
abbrev pub has_parents : ℕ → ℕ → Db → Bool
has_parents account_id signal_id db =
    any (has_account_id account_id) db.accounts && exists_id db signal_id

abbrev pub add_position : (ℕ → Position) → Db → Db
add_position row db = record db {
  positions = db.positions ++ (row db.next_position ∷ []);
  next_position = db.next_position + 1;
}

-- The INSERT of an OPEN position.
unfoldable pub insert_position : PositionArgs → Text → ℕ → Timestamp → Action Position
insert_position args symbol leverage opened = do
  entry_price ← lift (to_decimal args.entry_price)
  quantity ← lift (to_decimal args.quantity)
  position_size ← lift (to_decimal args.position_size)
  margin ← lift (to_decimal args.margin)
  stop_loss ← lift (to_decimal args.stop_loss)
  take_profit ← lift (to_decimal args.take_profit)
  has_keys ← gets (has_parents args.account_id args.signal_id)
  lift (raise_if (not has_keys) sqlite_constraint)
  let row : ℕ → Position = λ position_id. record {
    id = position_id;
    account_id = args.account_id;
    signal_id = args.signal_id;
    symbol = symbol;
    side = args.side;
    entry_price = entry_price;
    quantity = quantity;
    position_size = position_size;
    margin = margin;
    leverage = leverage;
    stop_loss = stop_loss;
    take_profit = take_profit;
    unrealized_pnl = none;
    status = open_;
    opened_at = opened;
    closed_at = none;
  }
  position_id ← gets λ db. db.next_position
  modify (add_position row)
  pure (row position_id)

unfoldable pub create_position : PositionArgs → Timestamp → Action Position
unfolding insert_position
create_position args now = do
  symbol ← lift (validate_symbol args.symbol)
  lift (raise_if (not (is_direction args.side)) demo_validation)
  leverage ← lift (check_leverage (some args.leverage))
  transaction (do
    existing ← gets λ db. find (position_of args.signal_id) db.positions
    or_else existing (insert_position args symbol leverage (given_or args.opened_at now)))

abbrev pub get_position_for_signal : ℕ → Action (Option Position)
get_position_for_signal signal_id = gets λ db. find (position_of signal_id) db.positions

abbrev pub position_status_eq : PositionStatus → PositionStatus → Bool
position_status_eq open_ open_ = true
position_status_eq closed closed = true
position_status_eq _ _ = false

-- `x is None or column = x`
abbrev pub matches {ℓ} : {A : Type ℓ} → (A → Bool) → Option A → Bool
matches test none = true
matches test (some x) = test x

abbrev pub positions_of : Option ℕ → Option PositionStatus → Db → List Position
positions_of account_id status db =
    select
      (λ p.
        matches (λ i. p.account_id == i) account_id && matches (position_status_eq p.status) status)
      db.positions

abbrev pub list_positions : Option ℕ → Option PositionStatus → Action (List Position)
list_positions account_id status = gets (positions_of account_id status)
