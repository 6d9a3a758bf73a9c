-- ===== src/Demo/Balance.antt =====
-- The invariant of the demo ledger.
use tool_trade.Common.{
  ℕ, ◌≤◌, ◌<◌, ◌≡◌, refl, true, false, some, List, [], ◌∷◌, ◌++◌, map, ◌==◌, if◌then◌else◌, select,
  count, All, arith,
}
use tool_trade.Decimal
use tool_trade.Decimal.{Decimal}
use tool_trade.Store.{Db, Account, Trade}
use tool_trade.Demo.Ledger.{has_account_id, position_of, trade_of}

-- The net profits of an account's trades, in the order in which they were recorded.
abbrev pub nets : ℕ → List Trade → List Decimal
nets i trades = map (λ t. t.net_pnl) (select (λ t. t.account_id == i) trades)

-- The balance is the initial balance and the net profits, added one by one; the peak is at or above
-- both.
abbrev pub IsBalanced : List Trade → Account → Type 0
IsBalanced trades a =
    (a.balance ≡ Decimal.sum (nets a.id trades) a.initial_balance)
    × ((peak : Decimal) × (a.peak_equity ≡ some peak)
        × (Decimal.le a.balance peak ≡ true)
        × (Decimal.le a.initial_balance peak ≡ true))

-- Every account is balanced; a signal has one position and one trade at most; account ids are unique
-- and below the next one, also in trades.
pub record IsLedger (db : Db) : Type 0 where
  pub accounts_once : (i : ℕ) → count (has_account_id i) db.accounts ≤ 1
  pub positions_once : (i : ℕ) → count (position_of i) db.positions ≤ 1
  pub trades_once : (i : ℕ) → count (trade_of i) db.trades ≤ 1
  pub account_ids : All (λ a. a.id < db.next_account) db.accounts
  pub trade_accounts : All (λ t. t.account_id < db.next_account) db.trades
  pub balances : All (IsBalanced db.trades) db.accounts

nets-append :
    (i : ℕ) (ts : List Trade) (t : Trade)
    → nets i (ts ++ (t ∷ []))
      ≡ (if t.account_id == i then nets i ts ++ (t.net_pnl ∷ []) else nets i ts)
nets-append i [] t = ground arith
nets-append i (u ∷ ts) t = ground (arith, nets-append i ts t)

pub nets-own :
    (i : ℕ) (ts : List Trade) (t : Trade)
    → i ≡ t.account_id
    → nets i (ts ++ (t ∷ [])) ≡ nets i ts ++ (t.net_pnl ∷ [])
nets-own i ts t e = ground (arith, nets-append i ts t)

pub nets-other :
    (i : ℕ) (ts : List Trade) (t : Trade)
    → (i == t.account_id) ≡ false
    → nets i (ts ++ (t ∷ [])) ≡ nets i ts
nets-other i ts t e = ground (arith, nets-append i ts t)

pub sum-append :
    (xs : List Decimal) (x acc : Decimal)
    → Decimal.sum (xs ++ (x ∷ [])) acc ≡ Decimal.add (Decimal.sum xs acc) x
sum-append [] x acc = refl
sum-append (y ∷ ys) x acc = sum-append ys x (Decimal.add acc y)

-- No trade of an account that is not there yet.
pub nets-fresh :
    (next : ℕ) (ts : List Trade) → All (λ t. t.account_id < next) ts → nets next ts ≡ []
nets-fresh next [] h = refl
nets-fresh next (t ∷ ts) h = ground (arith, nets-fresh next ts)
