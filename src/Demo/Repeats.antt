-- ===== src/Demo/Repeats.antt =====
-- A repeated call of `close_position` or `open_position` returns the same row and writes nothing.
use tool_trade.Common.{
  ℕ, ◌≡◌, refl, subst, Bool, true, false, not, Option, none, some, find, arith, length, leb, pos,
  inl, inr, Bool-cases,
}
use tool_trade.Decimal
use tool_trade.Models.{Timestamp, Signal, status_eq, open_, number, integer}
use tool_trade.Result.{Result, ok, err, Ensures, Ensures-bind, Ensures-eq_ok}
use tool_trade.Store
use tool_trade.Store.{Db, Account, Position, Trade, Action}
use tool_trade.Store.Rules.{Finishes, Finishes-lift, Finishes-and_then, Runs}
use tool_trade.SignalRepository.Types.{given_or}
use tool_trade.Demo.Account.{slippage_factor, gross_pnl, total_fee, net_pnl, resolve_quantity}
use tool_trade.Demo.Fills.{Executor, settle, size_position, percent_of, exit_level}
use tool_trade.Demo.Ledger.{position_of, trade_of}
use tool_trade.Demo.Positions.{create_position, PositionArgs, positions_of}
use tool_trade.Demo.Trades.{record_trade, TradeArgs}
use tool_trade.Demo.Balance.{IsLedger}
use tool_trade.Demo.Recorded.{Recorded, record_trade-Runs}
use tool_trade.Demo.Opening.{Opened, create_position-Runs}
use tool_trade.Demo.Accounts.{Ensured, ensure_account-Runs}
use tool_trade.Demo.Executor.{
  executor_account, account_args, max_open_positions, open_sized, open_within_cap, open_new,
  open_once, open_position, unless, or_some, close_open, close_once, close_position, is_hit,
}

Runs-Finishes :
    {A : Type 0} (Q : A → Db → Type 0) (db : Db) (p : Result A × Db) → Runs Q db p → Finishes Q p
Runs-Finishes Q db (ok a, db') h = h
Runs-Finishes Q db (err e, db') h = tt

Finishes-eq_ok :
    {A : Type 0} (Q : A → Db → Type 0) (p : Result A × Db) (a : A)
    → Finishes Q p
    → p.0 ≡ ok a
    → Q a p.1
Finishes-eq_ok Q (ok b, db) a h e = let same : b ≡ a = ground arith in subst (λ x. Q x db) same h
Finishes-eq_ok Q (err x, db) a h e = absurd (cc e)

-- What is returned, if anything, is the row that is found afterwards.
abbrev Found : {A : Type 0} → (Db → Option A) → Option A → Db → Type 0
Found look none db = Unit
Found look (some a) db = look db ≡ some a

settle-signal :
    (ex : Executor) (s : Signal) (p : Position) (a : Account) (closed_at : Option Timestamp)
    → Ensures (λ args. TradeArgs.signal_id args ≡ s.id) (settle ex s p a closed_at)
unfolding settle
settle-signal ex s p a closed_at =
    let P : TradeArgs → Type 0 = λ args. args.signal_id ≡ s.id in
    Ensures-bind P (slippage_factor ex.config.slippage_bps s.direction false) _ λ factor _.
      let exit_exec = Decimal.mul (exit_level s p) factor in
      Ensures-bind P
        (gross_pnl s.direction (number p.entry_price) (number exit_exec) (number p.quantity)) _
        λ _ _.
          Ensures-bind P
            (total_fee (number p.position_size) (number exit_exec) (number p.quantity)
              (number a.fee_rate))
            _
            λ _ _.
              Ensures-bind P
                (net_pnl s.direction (number p.entry_price) (number exit_exec) (number p.quantity)
                  (number p.position_size) (number a.fee_rate))
                _ λ net _. Ensures-bind P (percent_of net p.margin) _ λ _ _. refl

unless-Found :
    {A : Type 0} (look : Db → Option A) (b : Bool) (act : Action (Option A)) (db : Db)
    → Finishes (Found look) (act db)
    → Finishes (Found look) (unless b act db)
unless-Found look true act db h = tt
unless-Found look false act db h = h

or_some-Found :
    {A : Type 0} (look : Db → Option A) (o : Option A) (act : Action (Option A)) (db : Db)
    → look db ≡ o
    → Finishes (Found look) (act db)
    → Finishes (Found look) (or_some o act db)
or_some-Found look none act db e h = h
or_some-Found look (some a) act db e h = e

account-Finishes :
    (ex : Executor) (now : Timestamp) (db : Db)
    → IsLedger db
    → Finishes (Ensured ex.account_name db) (executor_account ex now db)
unfolding executor_account
account-Finishes ex now db v =
    Runs-Finishes (Ensured ex.account_name db) db _ (ensure_account-Runs (account_args ex) now db v)

abbrev traded : ℕ → Db → Option Trade
traded i db = find (trade_of i) db.trades

close_open-Found :
    (ex : Executor) (s : Signal) (closed_at : Option Timestamp) (p : Option Position)
    (now : Timestamp) (db : Db)
    → IsLedger db
    → Finishes (Found (traded s.id)) (close_open ex s closed_at p now db)
unfolding close_open
close_open-Found ex s closed_at none now db v = tt
close_open-Found ex s closed_at (some p) now db v =
    let Q = Found (traded s.id) in
    Finishes-and_then Q (Ensured ex.account_name db) (executor_account ex now db) _
      (account-Finishes ex now db v)
      λ account db1 e1. Finishes-lift Q (settle ex s p account closed_at) _ db1 λ args h.
        let own =
          Ensures-eq_ok (λ (t : TradeArgs). t.signal_id ≡ s.id) _ args
            (settle-signal ex s p account closed_at) h in
        Finishes-and_then Q (Recorded args (given_or args.closed_at now) db1)
          (record_trade args now db1) _
          (Runs-Finishes (Recorded args (given_or args.closed_at now) db1) db1 _
            (record_trade-Runs args now db1 e1.0))
          λ row db2 r. subst (λ i. find (trade_of i) db2.trades ≡ some row) own r.2

close_position-Found :
    (ex : Executor) (s : Signal) (closed_at : Option Timestamp) (now : Timestamp) (db : Db)
    → IsLedger db
    → Finishes (Found (traded s.id)) (close_position ex (some s) closed_at now db)
unfolding close_position close_once
close_position-Found ex s closed_at now db v =
    let p = find (position_of s.id) db.positions in
    unless-Found (traded s.id) (not (is_hit s.status)) (close_once ex s closed_at now) db (
      or_some-Found (traded s.id) (traded s.id db) (close_open ex s closed_at p now) db refl
        (close_open-Found ex s closed_at p now db v))

close_position-found :
    (ex : Executor) (s : Signal) (later : Option Timestamp) (now : Timestamp) (db : Db) (t : Trade)
    → traded s.id db ≡ some t
    → is_hit s.status ≡ true
    → close_position ex (some s) later now db ≡ (ok (some t), db)
unfolding close_position close_once
close_position-found ex s later now db t h e = rw (e, h) refl

-- After a call of `close_position` that returned a trade, a second call for the signal, at any time,
-- returns the same trade and writes nothing.
pub close_position-again :
    (ex : Executor) (s : Signal) (closed_at later : Option Timestamp) (now then_now : Timestamp)
    (db : Db) (t : Trade)
    → IsLedger db
    → (close_position ex (some s) closed_at now db).0 ≡ ok (some t)
    → close_position ex (some s) later then_now (close_position ex (some s) closed_at now db).1
      ≡ (ok (some t), (close_position ex (some s) closed_at now db).1)
unfolding close_position close_once
close_position-again ex s closed_at later now then_now db t v h =
    let db' = (close_position ex (some s) closed_at now db).1 in
    let found : traded s.id db' ≡ some t =
      Finishes-eq_ok (Found (traded s.id)) _ (some t) (close_position-Found ex s closed_at now db v)
        h in
    elim (Bool-cases (is_hit s.status)) [
      | inl e ↦ close_position-found ex s later then_now db' t found e
      | inr e ↦ absurd (ground arith)
    ]

size_position-signal :
    (ex : Executor) (s : Signal) (a : Account)
    → Ensures (λ args. PositionArgs.signal_id args ≡ s.id) (size_position ex s a)
unfolding size_position
size_position-signal ex s a =
    let P : PositionArgs → Type 0 = λ args. args.signal_id ≡ s.id in
    Ensures-bind P (slippage_factor ex.config.slippage_bps s.direction true) _ λ factor _.
      Ensures-bind P
        (resolve_quantity (number a.balance) (number a.margin_per_trade) (integer (pos a.leverage))
          (number a.risk_percent) (number (Decimal.mul s.entry factor)) (number s.stop_loss))
        _ λ _ _. refl

abbrev placed : ℕ → Db → Option Position
placed i db = find (position_of i) db.positions

open_sized-Found :
    (ex : Executor) (s : Signal) (a : Account) (now : Timestamp) (db : Db)
    → IsLedger db
    → Finishes (Found (placed s.id)) (open_sized ex s a now db)
unfolding open_sized
open_sized-Found ex s a now db v =
    let Q = Found (placed s.id) in
    Finishes-lift Q (size_position ex s a) _ db λ args h.
      let own =
        Ensures-eq_ok (λ (p : PositionArgs). p.signal_id ≡ s.id) _ args
          (size_position-signal ex s a) h in
      Finishes-and_then Q (Opened args.signal_id db) (create_position args now db) _
        (Runs-Finishes (Opened args.signal_id db) db _ (create_position-Runs args now db v))
        λ row db2 r. subst (λ i. find (position_of i) db2.positions ≡ some row) own r.1.0

open_new-Found :
    (ex : Executor) (s : Signal) (now : Timestamp) (db : Db)
    → IsLedger db
    → Finishes (Found (placed s.id)) (open_new ex s now db)
unfolding open_new open_within_cap
open_new-Found ex s now db v =
    let Q = Found (placed s.id) in
    Finishes-and_then Q (Ensured ex.account_name db) (executor_account ex now db) _
      (account-Finishes ex now db v)
      λ account db1 e1.
        unless-Found (placed s.id) (Decimal.lt account.balance account.margin_per_trade)
          (open_within_cap ex s account now) db1
          (unless-Found (placed s.id)
            (leb max_open_positions
              (length (positions_of (some account.id) (some Store.open_) db1)))
            (open_sized ex s account now) db1 (open_sized-Found ex s account now db1 e1.0))

open_position-Found :
    (ex : Executor) (s : Signal) (now : Timestamp) (db : Db)
    → IsLedger db
    → Finishes (Found (placed s.id)) (open_position ex (some s) now db)
unfolding open_position open_once
open_position-Found ex s now db v =
    unless-Found (placed s.id) (not (status_eq s.status open_)) (open_once ex s now) db (
      or_some-Found (placed s.id) (placed s.id db) (open_new ex s now) db refl
        (open_new-Found ex s now db v))

open_position-found :
    (ex : Executor) (s : Signal) (now : Timestamp) (db : Db) (p : Position)
    → placed s.id db ≡ some p
    → status_eq s.status open_ ≡ true
    → open_position ex (some s) now db ≡ (ok (some p), db)
unfolding open_position open_once
open_position-found ex s now db p h e = rw (e, h) refl

-- After a call of `open_position` that returned a position, a second call for the signal, at any time,
-- returns the same position and writes nothing.
pub open_position-again :
    (ex : Executor) (s : Signal) (now then_now : Timestamp) (db : Db) (p : Position)
    → IsLedger db
    → (open_position ex (some s) now db).0 ≡ ok (some p)
    → open_position ex (some s) then_now (open_position ex (some s) now db).1
      ≡ (ok (some p), (open_position ex (some s) now db).1)
unfolding open_position open_once
open_position-again ex s now then_now db p v h =
    let db' = (open_position ex (some s) now db).1 in
    let found : placed s.id db' ≡ some p =
      Finishes-eq_ok (Found (placed s.id)) _ (some p) (open_position-Found ex s now db v) h in
    elim (Bool-cases (status_eq s.status open_)) [
      | inl e ↦ open_position-found ex s then_now db' p found e
      | inr e ↦ absurd (ground arith)
    ]
