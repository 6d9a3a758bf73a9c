-- ===== src/Demo/Accounts.antt =====
-- `ensure_account` keeps the invariant of the ledger, and creates an account once.
use tool_trade.Common.{
  ℕ, ◌+◌, ◌<◌, ◌≡◌, refl, subst, inl, inr, Option, none, some, List, [], ◌∷◌, ◌++◌, ◌==◌, find,
  count, All, All-map, All-append, count-append, count_of_none, find-append, arith, Bool-cases,
}
use tool_trade.Decimal.{Decimal}
use tool_trade.Decimal.Order.{le_refl_lem}
use tool_trade.Models.{Timestamp, to_decimal}
use tool_trade.Result.{raise_if, on_given, demo_validation}
use tool_trade.Store.{Db, Account}
use tool_trade.Store.Rules.{Finishes, Runs-commit, Runs-lift, Runs}
use tool_trade.SignalRepository.Types.{given_or}
use tool_trade.Text.{Text, text_eq_refl, strip, is_empty}
use tool_trade.Demo.Ledger.{
  has_account_id, has_account_name, check_leverage, AccountArgs, ensure_account, insert_account,
  new_account,
}
use tool_trade.Demo.Balance.{nets-fresh, IsBalanced, IsLedger}
use tool_trade.Demo.Opening.{Once, existing-Finishes}

abbrev pub with_account : Account → Db → Db
with_account a db = record db {
  accounts = db.accounts ++ (a ∷ []);
  next_account = db.next_account + 1;
}

account_fresh :
    (xs : List Account) (next : ℕ) → All (λ a. a.id < next) xs → count (has_account_id next) xs ≡ 0
account_fresh [] next h = refl
account_fresh (x ∷ xs) next h = ground (arith, account_fresh xs next)

module _ (db : Db) (v : IsLedger db) (name : Text) (initial margin : Decimal) (leverage : ℕ)
    (risk fee : Decimal) (created : Timestamp) where
  abbrev new : Account
  new = new_account name initial margin leverage risk fee created db.next_account

  new-IsBalanced : IsBalanced db.trades new
  new-IsBalanced = (
    rw (nets-fresh db.next_account db.trades v.trade_accounts) refl,
    (initial, refl, le_refl_lem initial, le_refl_lem initial),
  )

  created-IsLedger : IsLedger (with_account new db)
  created-IsLedger = record {
    accounts_once = λ i.
        let fresh = account_fresh db.accounts db.next_account v.account_ids in
        rw (count-append (has_account_id i) db.accounts (new ∷ []))
          (elim (Bool-cases (db.next_account == i)) [
            | inl e ↦
                let same : db.next_account ≡ i = ground arith in
                let none_left : count (has_account_id i) db.accounts ≡ 0 =
                  subst (λ j. count (has_account_id j) db.accounts ≡ 0) same fresh in
                ground arith
            | inr e ↦ ground (arith, v.accounts_once i)
          ]);
    positions_once = v.positions_once;
    trades_once = v.trades_once;
    account_ids =
        All-append (λ a. a.id < db.next_account + 1) db.accounts (new ∷ [])
          (All-map (λ a. a.id < db.next_account) (λ a. a.id < db.next_account + 1) db.accounts
            (λ a h. omega arith) v.account_ids)
          (omega arith, tt);
    trade_accounts =
        All-map (λ t. t.account_id < db.next_account) (λ t. t.account_id < db.next_account + 1)
          db.trades (λ t h. omega arith) v.trade_accounts;
    balances =
        All-append (IsBalanced db.trades) db.accounts (new ∷ []) v.balances (new-IsBalanced, tt);
  }

abbrev pub Ensured : Text → Db → Account → Db → Type 0
Ensured name db a db' = IsLedger db' × Once (λ d. find (has_account_name name) d.accounts) db a db'

insert_account-Finishes :
    (name : Text) (initial margin : Option Decimal) (leverage : ℕ) (risk fee : Option Decimal)
    (created : Timestamp) (db : Db)
    → IsLedger db
    → find (has_account_name name) db.accounts ≡ none
    → Finishes (Ensured name db) (insert_account name initial margin leverage risk fee created db)
unfolding insert_account
insert_account-Finishes name (some initial) (some margin) leverage (some risk) (some fee) created db
      v h =
    let none_yet = count_of_none (has_account_name name) db.accounts h in
    (
      created-IsLedger db v name initial margin leverage risk fee created,
      (
        find-append (has_account_name name) db.accounts _ none_yet (text_eq_refl name),
        λ old k. absurd (ground arith),
      ),
    )
insert_account-Finishes name _ _ leverage _ _ created db v h = tt

-- Where `ensure_account` returns, its row is the account of that name: the one that was there, with
-- nothing written, or else a new one at its initial balance; and the ledger's invariant holds again. Where it raises, it has written
-- nothing.
pub ensure_account-Runs :
    (args : AccountArgs) (now : Timestamp) (db : Db)
    → IsLedger db
    → Runs (Ensured args.name db) db (ensure_account args now db)
unfolding ensure_account
ensure_account-Runs args now db v =
    let Q = Ensured args.name db in
    let found = find (has_account_name args.name) db.accounts in
    Runs-lift Q (raise_if (is_empty (strip args.name)) demo_validation) _ db λ _ _.
      Runs-lift Q (on_given to_decimal args.initial_balance) _ db λ initial _.
        Runs-lift Q (on_given to_decimal args.margin_per_trade) _ db λ margin _.
          Runs-lift Q (on_given to_decimal args.risk_percent) _ db λ risk _.
            Runs-lift Q (on_given to_decimal args.fee_rate) _ db λ fee _.
              Runs-lift Q (check_leverage args.leverage) _ db λ leverage _. Runs-commit Q db _ (
                existing-Finishes Q found
                  (insert_account args.name initial margin leverage risk fee
                    (given_or args.created_at now))
                  db (λ a h. (v, (h, λ _ _. refl)))
                  (insert_account-Finishes args.name initial margin leverage risk fee
                    (given_or args.created_at now) db v))
