-- ===== src/Demo/Executor.antt =====
-- `DemoExecutor` of demo/executor.py. Each call of the repository is a transaction of its own, so other
-- processes may write in between; here the calls of one operation run one after the other. A row with
-- no peak or equity reads as its balance.
use tool_trade.Common.{
  ℕ, ◌+◌, Bool, true, false, not, ◌||◌, Option, none, some, List, [], ◌∷◌, if◌then◌else◌, length,
  leb,
}
use tool_trade.Decimal
use tool_trade.Decimal.{Decimal}
use tool_trade.Models.{Status, open_, tp_hit, sl_hit, status_eq, Timestamp, Signal}
use tool_trade.Result.{Result, ok, err}
use tool_trade.Store
use tool_trade.Store.{Db, Account, Position, Trade, Action, pure, lift, ◌>>=◌, ◌>>◌}
use tool_trade.SignalRepository.{get_signal}
use tool_trade.Demo.Fills.{Executor, size_position, settle}
use tool_trade.Demo.Ledger.{AccountArgs, ensure_account}
use tool_trade.Demo.Positions.{create_position, get_position_for_signal, list_positions}
use tool_trade.Demo.Trades.{record_trade, get_trade_for_signal}

-- `MAX_OPEN_POSITIONS`
abbrev pub max_open_positions : ℕ
max_open_positions = 3

abbrev pub account_args : Executor → AccountArgs
account_args ex = record {
  name = ex.account_name;
  initial_balance = some ex.config.initial_balance;
  margin_per_trade = some ex.config.margin_per_trade;
  leverage = some ex.config.leverage;
  risk_percent = some ex.config.risk_percent;
  fee_rate = some ex.config.fee_rate;
  created_at = none;
}

unfoldable pub executor_account : Executor → Timestamp → Action Account
executor_account ex now = ensure_account (account_args ex) now

-- `return None` where the test holds.
abbrev pub unless {ℓ} : {A : Type ℓ} → Bool → Action (Option A) → Action (Option A)
unless true act = pure none
unless false act = act

abbrev pub or_some {ℓ} : {A : Type ℓ} → Option A → Action (Option A) → Action (Option A)
or_some none act = act
or_some (some a) act = pure (some a)

-- The position, sized from the account.
unfoldable pub open_sized : Executor → Signal → Account → Timestamp → Action (Option Position)
open_sized ex s account now = do
  args ← lift (size_position ex s account)
  row ← create_position args now
  pure (some row)

unfoldable pub open_within_cap : Executor → Signal → Account → Timestamp → Action (Option Position)
unfolding open_sized
open_within_cap ex s account now = do
  positions ← list_positions (some account.id) (some Store.open_)
  unless (leb max_open_positions (length positions)) (open_sized ex s account now)

-- The rest of `open_position` for a signal without a position.
unfoldable pub open_new : Executor → Signal → Timestamp → Action (Option Position)
unfolding open_within_cap executor_account
open_new ex s now = do
  account ← executor_account ex now
  unless (Decimal.lt account.balance account.margin_per_trade) (open_within_cap ex s account now)

-- A position that is there is returned as it is.
unfoldable pub open_once : Executor → Signal → Timestamp → Action (Option Position)
unfolding open_new
open_once ex s now = do
  existing ← get_position_for_signal s.id
  or_some existing (open_new ex s now)

unfoldable pub open_position : Executor → Option Signal → Timestamp → Action (Option Position)
unfolding open_once
open_position ex none now = pure none
open_position ex (some s) now = unless (not (status_eq s.status open_)) (open_once ex s now)

-- The rest of `close_position` for a signal without a trade.
unfoldable pub close_open :
    Executor → Signal → Option Timestamp → Option Position → Timestamp → Action (Option Trade)
unfolding executor_account settle
close_open ex s closed_at none now = pure none
close_open ex s closed_at (some p) now = do
  account ← executor_account ex now
  args ← lift (settle ex s p account closed_at)
  row ← record_trade args now
  pure (some row)

-- `signal.status in (STATUS_TP_HIT, STATUS_SL_HIT)`
abbrev pub is_hit : Status → Bool
is_hit status = status_eq status tp_hit || status_eq status sl_hit

-- A trade that is there is returned as it is.
unfoldable pub close_once : Executor → Signal → Option Timestamp → Timestamp → Action (Option Trade)
unfolding close_open
close_once ex s closed_at now = do
  existing ← get_trade_for_signal s.id
  position ← get_position_for_signal s.id
  or_some existing (close_open ex s closed_at position now)

unfoldable pub close_position :
    Executor → Option Signal → Option Timestamp → Timestamp → Action (Option Trade)
unfolding close_once
close_position ex none closed_at now = pure none
close_position ex (some s) closed_at now =
    unless (not (is_hit s.status)) (close_once ex s closed_at now)

abbrev pub found_one {ℓ} : {A : Type ℓ} → Option A → ℕ
found_one none = 0
found_one (some _) = 1

-- A signal whose reading raises is skipped, as is one that hit no exit.
abbrev pub hit_signal : Result Signal → Option Signal
hit_signal (err _) = none
hit_signal (ok s) = if is_hit s.status then some s else none

-- A signal whose trade is there is skipped.
unfoldable pub recover : Executor → Signal → Option Trade → Timestamp → Action (Option Trade)
unfolding close_position
recover ex s (some _) now = pure none
recover ex s none now = close_position ex (some s) none now

-- One position of the loop, for the signal that it is of: 1 where a trade was recovered.
unfoldable pub reconcile_signal : Executor → Option Signal → Timestamp → Action ℕ
unfolding recover
reconcile_signal ex none now = pure 0
reconcile_signal ex (some s) now = do
  existing ← get_trade_for_signal s.id
  trade ← recover ex s existing now
  pure (found_one trade)

unfoldable pub reconcile_positions : Executor → List Position → Timestamp → Action ℕ
unfolding reconcile_signal
reconcile_positions ex [] now = pure 0
reconcile_positions ex (p ∷ ps) now = do
  s ← λ db. (ok (hit_signal (get_signal p.signal_id db).0), db)
  first ← reconcile_signal ex s now
  rest ← reconcile_positions ex ps now
  pure (first + rest)

-- Only an OPEN signal's position is opened, which `open_position` tests. The counts are of positions
-- and of trades.
unfoldable pub reconcile : Executor → Option Signal → Timestamp → Action (ℕ × ℕ)
unfolding reconcile_positions executor_account open_position
reconcile ex active_signal now = do
  _ ← executor_account ex now
  position ← open_position ex active_signal now
  positions ← list_positions none none
  trades ← reconcile_positions ex positions now
  pure (found_one position, trades)
