-- ===== src/Demo/Opening.antt =====
-- `create_position` and `ensure_account` keep the invariant of the ledger, and create a row once.
use tool_trade.Common.{
  ℕ, ◌≡◌, refl, inl, inr, not, Option, none, some, [], ◌∷◌, ◌==◌, find, count, count-append,
  count_of_none, find-append, find-passes, subst, arith, Bool-cases,
}
use tool_trade.Market.{validate_symbol}
use tool_trade.Models.{Timestamp, is_direction, to_decimal}
use tool_trade.Result.{raise_if, demo_validation, sqlite_constraint}
use tool_trade.Store.{Db, Position, Action}
use tool_trade.Store.Rules.{Finishes, Finishes-lift, Runs-commit, Runs-lift, Runs}
use tool_trade.SignalRepository.Types.{given_or}
use tool_trade.Text.{Text}
use tool_trade.Demo.Ledger.{position_of, check_leverage, or_else}
use tool_trade.Demo.Positions.{
  PositionArgs, create_position, insert_position, has_parents, add_position,
}
use tool_trade.Demo.Balance.{IsLedger}

-- The row is the one that is found in the end; where there was one, nothing was written.
abbrev pub Once {ℓ} : {A : Type ℓ} → (Db → Option A) → Db → A → Db → Type ℓ
Once {A = A} look db a db' = (look db' ≡ some a) × ((old : A) → look db ≡ some old → db' ≡ db)

-- One more position, of a signal that has none.
opened-IsLedger :
    (db : Db) (new : Position)
    → IsLedger db
    → find (position_of new.signal_id) db.positions ≡ none
    → IsLedger (add_position (λ _. new) db)
opened-IsLedger db new v none_there = record {
  accounts_once = v.accounts_once;
  positions_once = λ i.
      let none_yet = count_of_none (position_of new.signal_id) db.positions none_there in
      rw (count-append (position_of i) db.positions (new ∷ []))
        (elim (Bool-cases (new.signal_id == i)) [
          | inl e ↦
              let same : new.signal_id ≡ i = ground arith in
              let none_left : count (position_of i) db.positions ≡ 0 =
                subst (λ j. count (position_of j) db.positions ≡ 0) same none_yet in
              ground arith
          | inr e ↦ ground (arith, v.positions_once i)
        ]);
  trades_once = v.trades_once;
  account_ids = v.account_ids;
  trade_accounts = v.trade_accounts;
  balances = v.balances;
}

abbrev pub Opened : ℕ → Db → Position → Db → Type 0
Opened signal_id db p db' =
    IsLedger db'
    × Once (λ d. find (position_of signal_id) d.positions) db p db'
    × (p.signal_id ≡ signal_id)

insert_position-Finishes :
    (args : PositionArgs) (symbol : Text) (leverage : ℕ) (opened : Timestamp) (db : Db)
    → IsLedger db
    → find (position_of args.signal_id) db.positions ≡ none
    → Finishes (Opened args.signal_id db) (insert_position args symbol leverage opened db)
unfolding insert_position
insert_position-Finishes args symbol leverage opened db v h =
    let Q = Opened args.signal_id db in
    let none_yet = count_of_none (position_of args.signal_id) db.positions h in
    Finishes-lift Q (to_decimal args.entry_price) _ db λ _ _.
      Finishes-lift Q (to_decimal args.quantity) _ db λ _ _.
        Finishes-lift Q (to_decimal args.position_size) _ db λ _ _.
          Finishes-lift Q (to_decimal args.margin) _ db λ _ _.
            Finishes-lift Q (to_decimal args.stop_loss) _ db λ _ _.
              Finishes-lift Q (to_decimal args.take_profit) _ db λ _ _.
                Finishes-lift Q
                  (raise_if (not (has_parents args.account_id args.signal_id db)) sqlite_constraint)
                  _ db
                  λ _ _. (
                    opened-IsLedger db _ v h,
                    (
                      find-append (position_of args.signal_id) db.positions _ none_yet
                          (ground arith),
                      λ old k. absurd (ground arith),
                    ),
                    refl,
                  )

pub existing-Finishes :
    {A : Type 0} (Q : A → Db → Type 0) (found : Option A) (act : Action A) (db : Db)
    → ((a : A) → found ≡ some a → Q a db)
    → (found ≡ none → Finishes Q (act db))
    → Finishes Q (or_else found act db)
existing-Finishes Q none act db h k = k refl
existing-Finishes Q (some a) act db h k = h a refl

-- Where `create_position` returns, its row is the signal's only position: the one that was there, with
-- nothing written, or else a new one; and the ledger's invariant holds again. Where it raises, it has written
-- nothing.
pub create_position-Runs :
    (args : PositionArgs) (now : Timestamp) (db : Db)
    → IsLedger db
    → Runs (Opened args.signal_id db) db (create_position args now db)
unfolding create_position
create_position-Runs args now db v =
    let Q = Opened args.signal_id db in
    let found = find (position_of args.signal_id) db.positions in
    Runs-lift Q (validate_symbol args.symbol) _ db λ symbol _.
      Runs-lift Q (raise_if (not (is_direction args.side)) demo_validation) _ db λ _ _.
        Runs-lift Q (check_leverage (some args.leverage)) _ db λ leverage _. Runs-commit Q db _ (
          existing-Finishes Q found
            (insert_position args symbol leverage (given_or args.opened_at now)) db
            (λ p h. (
              v,
              (h, λ _ _. refl),
              ground (arith, find-passes (position_of args.signal_id) db.positions p h),
            ))
            (insert_position-Finishes args symbol leverage (given_or args.opened_at now) db v))
