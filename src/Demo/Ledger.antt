-- ===== src/Demo/Ledger.antt =====
-- `DemoRepository` of database/database.py. A call that reads the clock takes the time as `now`. A row
-- that a call inserts or updates is what its last SELECT returns.
use tool_trade.Common.{
  ℕ, ◌+◌, Bool, true, false, ◌&&◌, Option, none, some, [], ◌∷◌, ◌++◌, ◌==◌, ltb, if◌then◌else◌, pos,
  negsuc, find, reject, update_where,
}
use tool_trade.Decimal.{Decimal}
use tool_trade.Models.{Value, IntArg, integer, not_integer, Timestamp, to_decimal}
use tool_trade.Result.{
  Result, ok, err, raise_if, on_given, or_raise, demo_validation, demo_not_found, sqlite_constraint,
}
use tool_trade.SignalRepository.Types.{given_or}
use tool_trade.Store.{
  Db, Account, Position, Trade, Action, ◌>>=◌, ◌>>◌, pure, lift, gets, modify, transaction,
}
use tool_trade.Text.{Text, text_eq, strip, is_empty}

abbrev pub has_account_id : ℕ → Account → Bool
has_account_id i a = a.id == i

abbrev pub has_account_name : Text → Account → Bool
has_account_name name a = text_eq a.name name

abbrev pub has_position_id : ℕ → Position → Bool
has_position_id i p = p.id == i

abbrev pub position_of : ℕ → Position → Bool
position_of signal_id p = p.signal_id == signal_id

abbrev pub trade_of : ℕ → Trade → Bool
trade_of signal_id t = t.signal_id == signal_id

-- A leverage argument, which may be missing.
unfoldable pub check_leverage : Option IntArg → Result ℕ
check_leverage none = err demo_validation
check_leverage (some (integer (pos n))) = if ltb n 1 then err demo_validation else ok n
check_leverage (some (integer (negsuc _))) = err demo_validation
check_leverage (some not_integer) = err demo_validation

pub record AccountArgs : Type 0 where
  pub name : Text
  pub initial_balance : Option Value
  pub margin_per_trade : Option Value
  pub leverage : Option IntArg
  pub risk_percent : Option Value
  pub fee_rate : Option Value
  pub created_at : Option Timestamp

abbrev pub new_account : Text → Decimal → Decimal → ℕ → Decimal → Decimal → Timestamp → ℕ → Account
new_account name initial margin leverage risk fee created account_id = record {
  id = account_id;
  name = name;
  initial_balance = initial;
  balance = initial;
  equity = some initial;
  margin_per_trade = margin;
  leverage = leverage;
  risk_percent = risk;
  fee_rate = fee;
  created_at = created;
  updated_at = none;
  peak_equity = some initial;
}

abbrev pub add_account : Account → Db → Result Account × Db
add_account a db =
    (ok a, record db { accounts = db.accounts ++ (a ∷ []); next_account = db.next_account + 1 })

-- The INSERT, whose money columns are NOT NULL.
unfoldable pub insert_account :
    Text
    → Option Decimal
    → Option Decimal
    → ℕ
    → Option Decimal
    → Option Decimal
    → Timestamp
    → Action Account
insert_account name (some initial) (some margin) leverage (some risk) (some fee) created db =
    add_account (new_account name initial margin leverage risk fee created db.next_account) db
insert_account name _ _ leverage _ _ created db = (err sqlite_constraint, db)

-- `existing` where it is there, and else what the action returns.
abbrev pub or_else {ℓ} : {A : Type ℓ} → Option A → Action A → Action A
or_else none act = act
or_else (some a) act = pure a

unfoldable pub ensure_account : AccountArgs → Timestamp → Action Account
unfolding insert_account
ensure_account args now = do
  lift (raise_if (is_empty (strip args.name)) demo_validation)
  initial ← lift (on_given to_decimal args.initial_balance)
  margin ← lift (on_given to_decimal args.margin_per_trade)
  risk ← lift (on_given to_decimal args.risk_percent)
  fee ← lift (on_given to_decimal args.fee_rate)
  leverage ← lift (check_leverage args.leverage)
  transaction (do
    existing ← gets λ db. find (has_account_name args.name) db.accounts
    or_else existing
        (insert_account args.name initial margin leverage risk fee (given_or args.created_at now)))

pub get_account : Text → Action (Option Account)
get_account name = gets λ db. find (has_account_name name) db.accounts

-- An UPDATE of one account, whose row is returned.
unfoldable pub update_account : ℕ → (Account → Account) → Action Account
update_account account_id f = do
  row ← gets λ db. find (has_account_id account_id) db.accounts
  account ← lift (or_raise row demo_not_found)
  modify λ db. record db { accounts = update_where (has_account_id account_id) f db.accounts }
  pure (f account)

abbrev pub with_balance : Decimal → Decimal → Decimal → Timestamp → Account → Account
with_balance balance equity peak updated a = record a {
  balance = balance;
  equity = some equity;
  peak_equity = some peak;
  updated_at = some updated;
}

pub update_balance : ℕ → Value → Value → Value → Option Timestamp → Timestamp → Action Account
unfolding update_account
update_balance account_id balance equity peak_equity updated_at now = do
  balance_s ← lift (to_decimal balance)
  equity_s ← lift (to_decimal equity)
  peak_s ← lift (to_decimal peak_equity)
  transaction
      (update_account account_id (with_balance balance_s equity_s peak_s (given_or updated_at now)))

pub record ConfigArgs : Type 0 where
  pub margin_per_trade : Option Value
  pub leverage : Option IntArg
  pub risk_percent : Option Value
  pub fee_rate : Option Value
  pub updated_at : Option Timestamp

-- `COALESCE(?, column)`
abbrev pub coalesce : Option Decimal → Decimal → Decimal
coalesce none d = d
coalesce (some e) d = e

abbrev pub is_missing : Option Decimal → Bool
is_missing none = true
is_missing (some _) = false

pub update_account_config : ℕ → ConfigArgs → Timestamp → Action Account
unfolding update_account
update_account_config account_id args now = do
  margin ← lift (on_given to_decimal args.margin_per_trade)
  risk ← lift (on_given to_decimal args.risk_percent)
  fee ← lift (on_given to_decimal args.fee_rate)
  leverage ← lift (check_leverage args.leverage)
  lift (raise_if (is_missing margin && is_missing risk && is_missing fee) demo_validation)
  transaction (
      update_account account_id λ a. record a {
        margin_per_trade = coalesce margin a.margin_per_trade;
        leverage = leverage;
        risk_percent = coalesce risk a.risk_percent;
        fee_rate = coalesce fee a.fee_rate;
        updated_at = some (given_or args.updated_at now);
      })

abbrev pub reset_row : Decimal → Timestamp → Account → Account
reset_row initial updated a = record a {
  initial_balance = initial;
  balance = initial;
  equity = some initial;
  peak_equity = some initial;
  updated_at = some updated;
}

unfoldable pub reset_account : ℕ → Value → Timestamp → Action Account
unfolding update_account
reset_account account_id initial_balance now = do
  initial ← lift (to_decimal initial_balance)
  transaction (do
    modify λ db. record db { trades = reject (λ t. t.account_id == account_id) db.trades }
    modify λ db. record db { positions = reject (λ p. p.account_id == account_id) db.positions }
    update_account account_id (reset_row initial now))
