-- ===== src/Demo/Lifecycle.antt =====
-- The operations of `DemoExecutor` keep the invariant of the ledger, and repeat without effect.
use tool_trade.Common.{
  ℕ, Bool, true, false, not, Option, none, some, List, [], ◌∷◌, find, length, leb,
}
use tool_trade.Decimal
use tool_trade.Models.{open_, status_eq, Timestamp, Signal}
use tool_trade.Result.{Result}
use tool_trade.Store
use tool_trade.Store.{Db, Account, Position, Trade, Action, and_then, pure, ◌>>=◌}
use tool_trade.Store.Rules.{Runs-keeps, keeps-and_then}
use tool_trade.SignalRepository.{get_signal}
use tool_trade.SignalRepository.Types.{given_or}
use tool_trade.Demo.Fills.{Executor, size_position, settle}
use tool_trade.Demo.Ledger.{position_of, trade_of}
use tool_trade.Demo.Positions.{create_position, PositionArgs, positions_of}
use tool_trade.Demo.Trades.{record_trade, TradeArgs}
use tool_trade.Demo.Balance.{IsLedger}
use tool_trade.Demo.Recorded.{Recorded, record_trade-Runs}
use tool_trade.Demo.Opening.{Opened, create_position-Runs}
use tool_trade.Demo.Accounts.{Ensured, ensure_account-Runs}
use tool_trade.Demo.Executor.{
  executor_account, account_args, open_sized, open_within_cap, open_new, open_once, open_position,
  unless, or_some, max_open_positions, close_open, close_once, close_position, is_hit, hit_signal,
  recover, reconcile_signal, reconcile_positions, reconcile,
}

account-IsLedger :
    (ex : Executor) (now : Timestamp) (db : Db)
    → IsLedger db
    → IsLedger (executor_account ex now db).1
unfolding executor_account
account-IsLedger ex now db v =
    Runs-keeps IsLedger (Ensured ex.account_name db) db _ v (λ a db' q. q.0)
      (ensure_account-Runs (account_args ex) now db v)

create-IsLedger :
    (args : PositionArgs) (now : Timestamp) (db : Db)
    → IsLedger db
    → IsLedger (create_position args now db).1
create-IsLedger args now db v =
    Runs-keeps IsLedger (Opened args.signal_id db) db _ v (λ p db' q. q.0)
      (create_position-Runs args now db v)

record-IsLedger :
    (args : TradeArgs) (now : Timestamp) (db : Db)
    → IsLedger db
    → IsLedger (record_trade args now db).1
record-IsLedger args now db v =
    Runs-keeps IsLedger (Recorded args (given_or args.closed_at now) db) db _ v (λ t db' q. q.0)
      (record_trade-Runs args now db v)

unless-IsLedger :
    {A : Type 0} (b : Bool) (act : Action (Option A)) (db : Db)
    → IsLedger db
    → IsLedger (act db).1
    → IsLedger (unless b act db).1
unless-IsLedger true act db v h = v
unless-IsLedger false act db v h = h

or_some-IsLedger :
    {A : Type 0} (o : Option A) (act : Action (Option A)) (db : Db)
    → IsLedger db
    → IsLedger (act db).1
    → IsLedger (or_some o act db).1
or_some-IsLedger none act db v h = h
or_some-IsLedger (some a) act db v h = v

-- A value that is computed from the tables and may raise.
lifted-IsLedger :
    {A B : Type 0} (r : Result A) (f : A → Action B) (db : Db)
    → IsLedger db
    → ((a : A) → IsLedger (f a db).1)
    → IsLedger (and_then (r, db) f).1
lifted-IsLedger r f db v h = keeps-and_then IsLedger (r, db) f v (λ a _ _. h a)

open_sized-IsLedger :
    (ex : Executor) (s : Signal) (account : Account) (now : Timestamp) (db : Db)
    → IsLedger db
    → IsLedger (open_sized ex s account now db).1
unfolding open_sized
open_sized-IsLedger ex s account now db v =
    lifted-IsLedger (size_position ex s account) _ db v λ args.
      keeps-and_then IsLedger (create_position args now db) _ (create-IsLedger args now db v)
        λ _ _ v'. v'

open_within_cap-IsLedger :
    (ex : Executor) (s : Signal) (account : Account) (now : Timestamp) (db : Db)
    → IsLedger db
    → IsLedger (open_within_cap ex s account now db).1
unfolding open_within_cap
open_within_cap-IsLedger ex s account now db v =
    unless-IsLedger
      (leb max_open_positions (length (positions_of (some account.id) (some Store.open_) db)))
      (open_sized ex s account now) db v (open_sized-IsLedger ex s account now db v)

open_new-IsLedger :
    (ex : Executor) (s : Signal) (now : Timestamp) (db : Db)
    → IsLedger db
    → IsLedger (open_new ex s now db).1
unfolding open_new
open_new-IsLedger ex s now db v =
    keeps-and_then IsLedger (executor_account ex now db) _ (account-IsLedger ex now db v)
      λ account _ v'.
        let db' = (executor_account ex now db).1 in
        unless-IsLedger (Decimal.lt account.balance account.margin_per_trade)
          (open_within_cap ex s account now) db' v'
          (open_within_cap-IsLedger ex s account now db' v')

open_once-IsLedger :
    (ex : Executor) (s : Signal) (now : Timestamp) (db : Db)
    → IsLedger db
    → IsLedger (open_once ex s now db).1
unfolding open_once
open_once-IsLedger ex s now db v =
    or_some-IsLedger (find (position_of s.id) db.positions) (open_new ex s now) db v
      (open_new-IsLedger ex s now db v)

pub open_position-IsLedger :
    (ex : Executor) (s : Option Signal) (now : Timestamp) (db : Db)
    → IsLedger db
    → IsLedger (open_position ex s now db).1
unfolding open_position
open_position-IsLedger ex none now db v = v
open_position-IsLedger ex (some s) now db v =
    unless-IsLedger (not (status_eq s.status open_)) (open_once ex s now) db v
      (open_once-IsLedger ex s now db v)

close_open-IsLedger :
    (ex : Executor) (s : Signal) (closed_at : Option Timestamp) (p : Option Position)
    (now : Timestamp) (db : Db)
    → IsLedger db
    → IsLedger (close_open ex s closed_at p now db).1
unfolding close_open
close_open-IsLedger ex s closed_at none now db v = v
close_open-IsLedger ex s closed_at (some p) now db v =
    keeps-and_then IsLedger (executor_account ex now db) _ (account-IsLedger ex now db v)
      λ account _ v'.
        let db' = (executor_account ex now db).1 in
        lifted-IsLedger (settle ex s p account closed_at) _ db' v' λ args.
          keeps-and_then IsLedger (record_trade args now db') _ (record-IsLedger args now db' v')
            λ _ _ v''. v''

close_once-IsLedger :
    (ex : Executor) (s : Signal) (closed_at : Option Timestamp) (now : Timestamp) (db : Db)
    → IsLedger db
    → IsLedger (close_once ex s closed_at now db).1
unfolding close_once
close_once-IsLedger ex s closed_at now db v =
    let p = find (position_of s.id) db.positions in
    or_some-IsLedger (find (trade_of s.id) db.trades) (close_open ex s closed_at p now) db v
      (close_open-IsLedger ex s closed_at p now db v)

pub close_position-IsLedger :
    (ex : Executor) (s : Option Signal) (closed_at : Option Timestamp) (now : Timestamp) (db : Db)
    → IsLedger db
    → IsLedger (close_position ex s closed_at now db).1
unfolding close_position
close_position-IsLedger ex none closed_at now db v = v
close_position-IsLedger ex (some s) closed_at now db v =
    unless-IsLedger (not (is_hit s.status)) (close_once ex s closed_at now) db v
      (close_once-IsLedger ex s closed_at now db v)

recover-IsLedger :
    (ex : Executor) (s : Signal) (t : Option Trade) (now : Timestamp) (db : Db)
    → IsLedger db
    → IsLedger (recover ex s t now db).1
unfolding recover
recover-IsLedger ex s none now db v = close_position-IsLedger ex (some s) none now db v
recover-IsLedger ex s (some t) now db v = v

reconcile_signal-IsLedger :
    (ex : Executor) (s : Option Signal) (now : Timestamp) (db : Db)
    → IsLedger db
    → IsLedger (reconcile_signal ex s now db).1
unfolding reconcile_signal
reconcile_signal-IsLedger ex none now db v = v
reconcile_signal-IsLedger ex (some s) now db v =
    keeps-and_then IsLedger (recover ex s (find (trade_of s.id) db.trades) now db) _
      (recover-IsLedger ex s (find (trade_of s.id) db.trades) now db v) λ _ _ v'. v'

reconcile_positions-IsLedger :
    (ex : Executor) (ps : List Position) (now : Timestamp) (db : Db)
    → IsLedger db
    → IsLedger (reconcile_positions ex ps now db).1
unfolding reconcile_positions
reconcile_positions-IsLedger ex [] now db v = v
reconcile_positions-IsLedger ex (p ∷ ps) now db v =
    let s = hit_signal (get_signal p.signal_id db).0 in
    keeps-and_then IsLedger (reconcile_signal ex s now db) _
      (reconcile_signal-IsLedger ex s now db v)
      λ _ _ v'.
        let db' = (reconcile_signal ex s now db).1 in
        keeps-and_then IsLedger (reconcile_positions ex ps now db') _
          (reconcile_positions-IsLedger ex ps now db' v') λ _ _ v''. v''

pub reconcile-IsLedger :
    (ex : Executor) (s : Option Signal) (now : Timestamp) (db : Db)
    → IsLedger db
    → IsLedger (reconcile ex s now db).1
unfolding reconcile
reconcile-IsLedger ex s now db v =
    keeps-and_then IsLedger (executor_account ex now db) _ (account-IsLedger ex now db v) λ _ _ v1.
      keeps-and_then IsLedger (open_position ex s now _) _ (open_position-IsLedger ex s now _ v1)
        λ _ _ v2.
          let db2 = (open_position ex s now (executor_account ex now db).1).1 in
          let ps = positions_of none none db2 in
          keeps-and_then {B = ℕ × ℕ} IsLedger (reconcile_positions ex ps now db2) _
            (reconcile_positions-IsLedger ex ps now db2 v2) λ _ _ v3. v3
