-- ===== src/Demo/Recorded.antt =====
-- What a whole call of `record_trade` does.
use tool_trade.Common.{
  ℕ, ◌≡◌, refl, sym, ◌∙◌, ap, false, not, some, [], ◌∷◌, ◌++◌, any, find, update_where, count_zero,
  find-append, arith,
}
use tool_trade.Decimal.{Decimal}
use tool_trade.Models.{Timestamp, is_direction}
use tool_trade.Result.{
  raise_if, raise_if-eq-ok, or_raise, demo_duplicate, demo_not_found, demo_validation,
}
use tool_trade.Store.{Db, Trade}
use tool_trade.Store.Rules.{
  Finishes, Finishes-lift, Finishes-and_then, Runs-commit, Runs-lift, Runs,
}
use tool_trade.SignalRepository.Types.{given_or}
use tool_trade.Demo.Ledger.{has_account_id, has_position_id, trade_of, check_leverage}
use tool_trade.Demo.Trades.{
  TradeArgs, insert_trade, update_after_trade, write_trade, record_trade, close_row, check_outcome,
}
use tool_trade.Demo.Balance.{IsLedger}
use tool_trade.Demo.Recording.{
  Inserted, insert_trade-Finishes, Updated, update_after_trade-Finishes, recorded-IsLedger,
}

abbrev closed_db : ℕ → Timestamp → Db → Db
closed_db i closed_time db = record db {
  positions = update_where (has_position_id i) (close_row closed_time) db.positions;
}

-- The trade is the signal's only one, its position is closed, and the ledger's invariant holds.
abbrev pub Recorded : TradeArgs → Timestamp → Db → Trade → Db → Type 0
Recorded args closed_time db row db' =
    IsLedger db'
    × (any (trade_of args.signal_id) db.trades ≡ false)
    × (find (trade_of args.signal_id) db'.trades ≡ some row)
    × (db'.positions
        ≡ update_where (has_position_id args.position_id) (close_row closed_time) db.positions)
    × (db'.signals ≡ db.signals)

assemble :
    (args : TradeArgs) (closed_time updated : Timestamp) (db db1 db2 : Db) (row : Trade)
    (net : Decimal)
    → IsLedger db
    → any (trade_of args.signal_id) db.trades ≡ false
    → Inserted args (closed_db args.position_id closed_time db) (row, net) db1
    → Updated args.account_id net updated db1 db2
    → Recorded args closed_time db row db2
assemble args closed_time updated db db1 db2 row net v fresh (of_account, of_signal, is_net, e1)
      (account, peak, found, peaked, e2) =
    let own : find (has_account_id row.account_id) db.accounts ≡ some account =
      rw (of_account)
        (sym (ap (λ (d : Db). find (has_account_id args.account_id) d.accounts) e1) ∙ found) in
    let free : any (trade_of row.signal_id) db.trades ≡ false = rw of_signal fresh in
    let ledger =
      recorded-IsLedger db v args.position_id closed_time row account peak updated free own
        peaked in
    let none_yet = count_zero (trade_of args.signal_id) db.trades fresh in
    let traded : find (trade_of args.signal_id) (db.trades ++ (row ∷ [])) ≡ some row =
      find-append (trade_of args.signal_id) db.trades row none_yet (ground (arith, of_signal)) in
    rw (e2, e1, sym of_account, sym is_net) (ledger, fresh, traded, refl, refl)

write_trade-Finishes :
    (args : TradeArgs) (leverage : ℕ) (closed_time updated : Timestamp) (db : Db)
    → IsLedger db
    → Finishes (Recorded args closed_time db) (write_trade args leverage closed_time updated db)
unfolding write_trade
write_trade-Finishes args leverage closed_time updated db v =
    let Q = Recorded args closed_time db in
    let db0 = closed_db args.position_id closed_time db in
    Finishes-lift Q (or_raise (find (has_position_id args.position_id) db.positions) demo_not_found)
      _ db
      λ position _.
        Finishes-lift Q (raise_if (any (trade_of args.signal_id) db.trades) demo_duplicate) _ db
          λ _ fresh.
            Finishes-and_then Q (Inserted args db0)
              (insert_trade args leverage position closed_time db0) _
              (insert_trade-Finishes args leverage position closed_time db0)
              λ (inserted : Trade × Decimal) db1 i.
                Finishes-and_then Q
                  (λ (_ : Unit {0}) db2. Updated args.account_id inserted.1 updated db1 db2)
                  (update_after_trade args.account_id inserted.1 updated db1) _
                  (update_after_trade-Finishes args.account_id inserted.1 updated db1)
                  λ _ db2 u.
                    assemble args closed_time updated db db1 db2 inserted.0 inserted.1 v
                      (raise_if-eq-ok _ demo_duplicate fresh) i u

pub record_trade-Runs :
    (args : TradeArgs) (now : Timestamp) (db : Db)
    → IsLedger db
    → Runs (Recorded args (given_or args.closed_at now) db) db (record_trade args now db)
unfolding record_trade
record_trade-Runs args now db v =
    let Q = Recorded args (given_or args.closed_at now) db in
    Runs-lift Q (raise_if (not (is_direction args.side)) demo_validation) _ db λ _ _.
      Runs-lift Q (check_leverage (some args.leverage)) _ db λ leverage _.
        Runs-lift Q (check_outcome args.result) _ db λ _ _. Runs-commit Q db _ (
          write_trade-Finishes args leverage (given_or args.closed_at now)
            (given_or args.updated_at now) db v)
