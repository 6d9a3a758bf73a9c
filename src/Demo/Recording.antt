-- ===== src/Demo/Recording.antt =====
-- `record_trade` keeps the invariant of the ledger.
use tool_trade.Common.{
  ℕ, ◌+◌, ◌≤◌, ◌<◌, ◌≡◌, refl, sym, ◌∙◌, ap, subst, inl, inr, true, false, not, some, [], ◌∷◌, ◌++◌,
  ◌==◌, any, find, update_where, count, All-map, All-append, All-find, All-update_where,
  All-update_split, All-both, All-always, count-append, count_zero, count-update_where-le,
  find_unique, find-key, arith, Bool-cases,
}
use native.Mathlib.Nat.{le_trans}
use tool_trade.Decimal
use tool_trade.Decimal.{Decimal}
use tool_trade.Decimal.Order.{le_refl_lem, le_total, le_trans as decimal-le_trans}
use tool_trade.Models.{Timestamp, to_decimal, to_decimal_signed}
use tool_trade.Result.{
  or_raise-eq_ok, raise_if, or_raise, sqlite_constraint, demo_not_found, invalid_operation,
}
use tool_trade.Store.{Db, Account, Position, Trade}
use tool_trade.Store.Rules.{Finishes, Finishes-lift}
use tool_trade.Demo.Ledger.{has_account_id, has_position_id, position_of, trade_of, with_balance}
use tool_trade.Demo.Positions.{has_parents}
use tool_trade.Demo.Trades.{
  TradeArgs, insert_trade, update_after_trade, next_balance, next_peak, close_row,
}
use tool_trade.Demo.Balance.{nets, IsBalanced, IsLedger, nets-own, nets-other, sum-append}

abbrev pub with_trade : Trade → Db → Db
with_trade row db = record db { trades = db.trades ++ (row ∷ []); next_trade = db.next_trade + 1 }

-- What the INSERT did.
abbrev pub Inserted : TradeArgs → Db → Trade × Decimal → Db → Type 0
Inserted args db (row, net) db' =
    (row.account_id ≡ args.account_id)
    × (row.signal_id ≡ args.signal_id)
    × (row.net_pnl ≡ net)
    × (db' ≡ with_trade row db)

pub insert_trade-Finishes :
    (args : TradeArgs) (leverage : ℕ) (position : Position) (closed_time : Timestamp) (db : Db)
    → Finishes (Inserted args db) (insert_trade args leverage position closed_time db)
unfolding insert_trade
insert_trade-Finishes args leverage position closed_time db =
    let Q = Inserted args db in
    Finishes-lift Q (to_decimal args.entry_price) _ db λ _ _.
      Finishes-lift Q (to_decimal args.exit_price) _ db λ _ _.
        Finishes-lift Q (to_decimal args.quantity) _ db λ _ _.
          Finishes-lift Q (to_decimal args.margin) _ db λ _ _.
            Finishes-lift Q (to_decimal args.position_size) _ db λ _ _.
              Finishes-lift Q (to_decimal_signed args.gross_pnl) _ db λ _ _.
                Finishes-lift Q (to_decimal args.fee) _ db λ _ _.
                  Finishes-lift Q (to_decimal_signed args.net_pnl) _ db λ _ _.
                    Finishes-lift Q (to_decimal_signed args.pnl_percent) _ db λ _ _.
                      Finishes-lift Q
                        (raise_if (not (has_parents args.account_id args.signal_id db))
                          sqlite_constraint)
                        _ db λ _ _. (refl, refl, refl, refl)

-- The account whose balance the trade moved.
abbrev pub Updated : ℕ → Decimal → Timestamp → Db → Db → Type 0
Updated i net updated db db' =
    (account : Account) × (peak : Decimal) × (find (has_account_id i) db.accounts ≡ some account)
    × (account.peak_equity ≡ some peak)
    × (db' ≡ record db {
      accounts =
          update_where (has_account_id i)
            (with_balance (next_balance account net) (next_balance account net)
              (next_peak (next_balance account net) peak) updated)
            db.accounts;
    })

pub update_after_trade-Finishes :
    (i : ℕ) (net : Decimal) (updated : Timestamp) (db : Db)
    → Finishes (λ _ db'. Updated i net updated db db') (update_after_trade i net updated db)
unfolding update_after_trade
update_after_trade-Finishes i net updated db =
    let Q : Unit {0} → Db → Type 0 = λ _ db'. Updated i net updated db db' in
    Finishes-lift Q (or_raise (find (has_account_id i) db.accounts) demo_not_found) _ db
      λ account h. Finishes-lift Q (or_raise (account.peak_equity) invalid_operation) _ db λ peak k.
        (
          account,
          peak,
          or_raise-eq_ok _ demo_not_found account h,
          or_raise-eq_ok _ invalid_operation peak k,
          refl,
        )

-- The tables after the whole transaction.
abbrev pub recorded : ℕ → Timestamp → Trade → Decimal → Decimal → Timestamp → Db → Db
recorded position_id closed_time row balance peak updated db = record db {
  positions = update_where (has_position_id position_id) (close_row closed_time) db.positions;
  trades = db.trades ++ (row ∷ []);
  next_trade = db.next_trade + 1;
  accounts =
      update_where (has_account_id row.account_id) (with_balance balance balance peak updated)
        db.accounts;
}

next_peak-bounds :
    (balance initial peak : Decimal)
    → Decimal.le initial peak ≡ true
    → (Decimal.le balance (next_peak balance peak) ≡ true)
      × (Decimal.le initial (next_peak balance peak) ≡ true)
next_peak-bounds balance initial peak h =
    let t = le_total balance peak in
    let r = le_refl_lem balance in
    let up = decimal-le_trans initial peak balance h in
    elim (Bool-cases (Decimal.lt peak balance)) [
      | inl e ↦ rw e (r, up (ground arith))
      | inr e ↦ rw e (ground arith, h)
    ]

module _ (db : Db) (v : IsLedger db) (position_id : ℕ) (closed_time : Timestamp) (row : Trade)
    (account : Account) (peak : Decimal) (updated : Timestamp)
    (fresh : any (trade_of row.signal_id) db.trades ≡ false)
    (found : find (has_account_id row.account_id) db.accounts ≡ some account)
    (peaked : account.peak_equity ≡ some peak) where
  -- The account's own row.
  abbrev new_balance : Decimal
  new_balance = next_balance account row.net_pnl

  abbrev f : Account → Account
  f = with_balance new_balance new_balance (next_peak new_balance peak) updated

  moved-IsBalanced :
      (x : Account)
      → x ≡ account
      → x.id ≡ row.account_id
      → IsBalanced db.trades x
      → IsBalanced (db.trades ++ (row ∷ [])) (f x)
  moved-IsBalanced x same own (sum, (p, has_peak, over, over_initial)) =
      let same_peak : p ≡ peak = ground (arith, ap (λ (a : Account). a.peak_equity) same) in
      let same_balance : x.balance ≡ account.balance = ap (λ (a : Account). a.balance) same in
      let (up, up_initial) =
        next_peak-bounds new_balance x.initial_balance peak
          (subst (λ q. Decimal.le x.initial_balance q ≡ true) same_peak over_initial) in
      (
        rw
            (
              nets-own x.id db.trades row own,
              sum-append (nets x.id db.trades) row.net_pnl x.initial_balance,
            )
            (ap (λ b. Decimal.add b row.net_pnl) (sym same_balance ∙ sum)),
        (next_peak new_balance peak, refl, up, up_initial),
      )

  other-IsBalanced :
      (x : Account)
      → has_account_id row.account_id x ≡ false
      → IsBalanced db.trades x
      → IsBalanced (db.trades ++ (row ∷ [])) x
  other-IsBalanced x other (sum, p) = (
    sum ∙ ap (λ n. Decimal.sum n x.initial_balance) (sym (nets-other x.id db.trades row other)),
    p,
  )

  trade_once : (i : ℕ) → count (trade_of i) (db.trades ++ (row ∷ [])) ≤ 1
  trade_once i =
      let none_yet = count_zero (trade_of row.signal_id) db.trades fresh in
      rw (count-append (trade_of i) db.trades (row ∷ [])) (elim (Bool-cases (row.signal_id == i)) [
        | inl e ↦
            let same : row.signal_id ≡ i = ground arith in
            let none_left : count (trade_of i) db.trades ≡ 0 =
              subst (λ j. count (trade_of j) db.trades ≡ 0) same none_yet in
            ground arith
        | inr e ↦ ground (arith, v.trades_once i)
      ])

  below : row.account_id < db.next_account
  below =
      let own : account.id < db.next_account =
        All-find (λ a. a.id < db.next_account) (has_account_id row.account_id) db.accounts account
          v.account_ids found in
      rw (find-key (λ (a : Account). a.id) db.accounts row.account_id account found) at own

  pub recorded-IsLedger :
      IsLedger
        (recorded position_id closed_time row new_balance (next_peak new_balance peak) updated db)
  recorded-IsLedger = record {
    accounts_once = λ i.
        le_trans
          (count-update_where-le (has_account_id i) (has_account_id row.account_id) f db.accounts
            (All-always _ (λ x e h. h) db.accounts))
          (v.accounts_once i);
    positions_once = λ i.
        le_trans
          (count-update_where-le (position_of i) (has_position_id position_id)
            (close_row closed_time) db.positions (All-always _ (λ x e h. h) db.positions))
          (v.positions_once i);
    trades_once = λ i. trade_once i;
    account_ids =
        All-update_where (λ a. a.id < db.next_account) (has_account_id row.account_id) f db.accounts
          (All-always _ (λ x e h. h) db.accounts) v.account_ids;
    trade_accounts =
        All-append (λ t. t.account_id < db.next_account) db.trades (row ∷ []) v.trade_accounts
          (below, tt);
    balances =
        All-update_split (IsBalanced (db.trades ++ (row ∷ []))) (has_account_id row.account_id) f
          db.accounts
          (All-map _ _ db.accounts
            (λ x h.
              (λ e. moved-IsBalanced x (h.0 e) (ground arith) h.1, λ e. other-IsBalanced x e h.1))
            (All-both _ _ db.accounts
              (find_unique (has_account_id row.account_id) db.accounts account
                (v.accounts_once row.account_id) found)
              v.balances));
  }
