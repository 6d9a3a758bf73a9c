-- ===== src/Demo/Reset.antt =====
-- `reset_account` starts one account afresh, and keeps the invariant of the ledger.
use native.Mathlib.Nat.{le_trans}
use tool_trade.Common.{
  ℕ, ◌<◌, ◌≡◌, refl, sym, ◌∙◌, ap, Bool, true, false, List, [], ◌∷◌, ◌==◌, find, reject,
  update_where, All-map, All-always, All-reject, All-update_where, All-update_split,
  count-reject-le, count-update_where-le, any, arith, some, select, select-reject, find-update_key,
  find-key,
}
use tool_trade.Decimal
use tool_trade.Decimal.{Decimal}
use tool_trade.Decimal.Order.{le_refl_lem}
use tool_trade.Models.{Timestamp, Value, number, to_decimal}
use tool_trade.Models.Prices.{to_decimal-pos}
use tool_trade.Result.{ok, or_raise, or_raise-eq_ok, demo_not_found}
use tool_trade.Store.{Db, Account, Position, Trade}
use tool_trade.Store.Rules.{Finishes-lift, Runs, Runs-lift, Runs-commit}
use tool_trade.Demo.Ledger.{
  has_account_id, position_of, trade_of, reset_row, reset_account, update_account,
}
use tool_trade.Demo.Balance.{nets, IsBalanced, IsLedger}

abbrev in_account : ℕ → Trade → Bool
in_account i t = t.account_id == i

abbrev placed_in : ℕ → Position → Bool
placed_in i p = p.account_id == i

nets-reject_own : (i j : ℕ) (ts : List Trade) → i ≡ j → nets i (reject (in_account j) ts) ≡ []
nets-reject_own i j [] e = refl
nets-reject_own i j (t ∷ ts) e = ground (arith, nets-reject_own i j ts e)

nets-reject_other :
    (i j : ℕ) (ts : List Trade) → (i == j) ≡ false → nets i (reject (in_account j) ts) ≡ nets i ts
nets-reject_other i j [] e = refl
nets-reject_other i j (t ∷ ts) e = ground (arith, nets-reject_other i j ts e)

any-reject {ℓ} : {A : Type ℓ} (p : A → Bool) (xs : List A) → any p (reject p xs) ≡ false
any-reject p [] = refl
any-reject p (x ∷ xs) = ground (arith, any-reject p xs)

abbrev afresh : ℕ → Decimal → Timestamp → Db → Db
afresh i initial now db = record db {
  trades = reject (in_account i) db.trades;
  positions = reject (placed_in i) db.positions;
  accounts = update_where (has_account_id i) (reset_row initial now) db.accounts;
}

module _ (i : ℕ) (initial : Decimal) (now : Timestamp) (db : Db) (v : IsLedger db) where
  own-IsBalanced :
      (x : Account)
      → has_account_id i x ≡ true
      → IsBalanced (reject (in_account i) db.trades) (reset_row initial now x)
  own-IsBalanced x e =
      let none_left = nets-reject_own x.id i db.trades (ground arith) in
      (rw none_left refl, (initial, refl, le_refl_lem initial, le_refl_lem initial))

  other-IsBalanced :
      (x : Account)
      → has_account_id i x ≡ false
      → IsBalanced db.trades x
      → IsBalanced (reject (in_account i) db.trades) x
  other-IsBalanced x e (sum, p) = (
    sum ∙ ap (λ n. Decimal.sum n x.initial_balance) (sym (nets-reject_other x.id i db.trades e)),
    p,
  )

  afresh-IsLedger : IsLedger (afresh i initial now db)
  afresh-IsLedger = record {
    accounts_once = λ j.
        le_trans
          (count-update_where-le (has_account_id j) (has_account_id i) (reset_row initial now)
            db.accounts (All-always _ (λ x e h. h) db.accounts))
          (v.accounts_once j);
    positions_once = λ j.
        le_trans (count-reject-le (position_of j) (placed_in i) db.positions) (v.positions_once j);
    trades_once =
        λ j. le_trans (count-reject-le (trade_of j) (in_account i) db.trades) (v.trades_once j);
    account_ids =
        All-update_where (λ a. a.id < db.next_account) (has_account_id i) (reset_row initial now)
          db.accounts (All-always _ (λ x e h. h) db.accounts) v.account_ids;
    trade_accounts =
        All-reject (λ t. t.account_id < db.next_account) (in_account i) db.trades v.trade_accounts;
    balances =
        All-update_split (IsBalanced (reject (in_account i) db.trades)) (has_account_id i)
          (reset_row initial now) db.accounts
          (All-map (IsBalanced db.trades) _ db.accounts
            (λ x h. (own-IsBalanced x, λ e. other-IsBalanced x e h)) v.balances);
  }

-- The account of that id, afresh with the amount that was given: no position and no trade of it is left,
-- its settings are as they were, and so are the other accounts with their positions and trades, and the
-- signals.
pub record Reset (i : ℕ) (initial_balance : Value) (now : Timestamp) (db : Db) (a : Account)
    (db' : Db) : Type 0 where
  pub ledger : IsLedger db'
  pub amount : Decimal
  pub given : (initial_balance ≡ number amount) × (Decimal.lt (Decimal.of_ℕ 0) amount ≡ true)
  pub before : Account
  pub was : find (has_account_id i) db.accounts ≡ some before
  pub stored : find (has_account_id i) db'.accounts ≡ some a
  pub identity : (a.id ≡ i) × (a.name ≡ before.name) × (a.created_at ≡ before.created_at)
  pub balances :
      (a.initial_balance ≡ amount)
      × (a.balance ≡ amount)
      × (a.equity ≡ some amount)
      × (a.peak_equity ≡ some amount)
  pub settings :
      (a.margin_per_trade ≡ before.margin_per_trade)
      × (a.leverage ≡ before.leverage)
      × (a.risk_percent ≡ before.risk_percent)
      × (a.fee_rate ≡ before.fee_rate)
  pub updated : a.updated_at ≡ some now
  pub no_positions : any (placed_in i) db'.positions ≡ false
  pub no_trades : any (in_account i) db'.trades ≡ false
  pub others :
      (j : ℕ)
      → (j == i) ≡ false
      → (find (has_account_id j) db'.accounts ≡ find (has_account_id j) db.accounts)
        × (select (placed_in j) db'.positions ≡ select (placed_in j) db.positions)
        × (select (in_account j) db'.trades ≡ select (in_account j) db.trades)
  pub signals : db'.signals ≡ db.signals

afresh-Reset :
    (i : ℕ) (initial_balance : Value) (initial : Decimal) (now : Timestamp) (db : Db)
    (before : Account)
    → IsLedger db
    → to_decimal initial_balance ≡ ok initial
    → find (has_account_id i) db.accounts ≡ some before
    → Reset i initial_balance now db (reset_row initial now before) (afresh i initial now db)
afresh-Reset i initial_balance initial now db before v given was =
    let f = reset_row initial now in
    let at : (j : ℕ) → _ = find-update_key (λ (x : Account). x.id) f (λ x. refl) db.accounts i in
    record {
      ledger = afresh-IsLedger i initial now db v;
      amount = initial;
      given = to_decimal-pos initial_balance initial given;
      before = before;
      was = was;
      stored = ground (arith, at i);
      identity = (find-key (λ (x : Account). x.id) db.accounts i before was, refl, refl);
      balances = (refl, refl, refl, refl);
      settings = (refl, refl, refl, refl);
      updated = refl;
      no_positions = any-reject (placed_in i) db.positions;
      no_trades = any-reject (in_account i) db.trades;
      others = λ j apart. (
        ground (arith, at j),
        select-reject (placed_in j) (placed_in i) (λ x e. ground arith) db.positions,
        select-reject (in_account j) (in_account i) (λ x e. ground arith) db.trades,
      );
      signals = refl;
    }

-- `reset_account` either raises and has written nothing, or the account of the id is there with the given
-- amount, a positive number, as its initial balance, balance, equity and peak; it keeps its name and
-- settings and has no position and no trade; other accounts, their positions and trades, and the signals
-- are as they were; and the ledger's invariant holds.
pub reset_account-Runs :
    (i : ℕ) (initial_balance : Value) (now : Timestamp) (db : Db)
    → IsLedger db
    → Runs (Reset i initial_balance now db) db (reset_account i initial_balance now db)
unfolding reset_account update_account
reset_account-Runs i initial_balance now db v =
    let Q = Reset i initial_balance now db in
    Runs-lift Q (to_decimal initial_balance) _ db λ initial given. Runs-commit Q db _ (
      Finishes-lift Q (or_raise (find (has_account_id i) db.accounts) demo_not_found) _ _
        λ before was.
          afresh-Reset i initial_balance initial now db before v given
            (or_raise-eq_ok (find (has_account_id i) db.accounts) demo_not_found before was))
