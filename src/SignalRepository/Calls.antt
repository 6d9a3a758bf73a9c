-- ===== src/SignalRepository/Calls.antt =====
-- What each writing call of `SignalRepository` does, branch by branch.
use tool_trade.Common.{
  ℕ, ◌+◌, ◌≡◌, true, false, ◌&&◌, Option, none, some, [], ◌∷◌, ◌++◌, any, find, update_where, arith,
  if◌then◌else◌, find-append, find-update_where, find-passes,
}
use tool_trade.Decimal.{Decimal}
use tool_trade.Models.{Status, Timestamp, Signal, allowed_transition, to_decimal}
use tool_trade.Result.{
  ok, err, Error, Ensures-eq_ok, signal_exists, signal_validation, signal_not_found,
  invalid_transition, on_given,
}
use tool_trade.Store.{Db}
use tool_trade.SignalRepository.{
  active_for, has_signal_id, create_signal, apply_transition, transition_signal, new_row,
  needs_price, is_none, check_result,
}
use tool_trade.SignalRepository.Types.{NewSignal, Transition, check_signal}
use tool_trade.SignalRepository.Invariant.{IsValid, fresh-count, new_row-id}
use tool_trade.SignalRepository.Create.{IsPrepared, check_signal-Ensures}

abbrev pub IsTable : Db → Type 0
IsTable db = IsValid db.signals db.next_signal

abbrev pub with_new : Db → Signal → Db
with_new db new = record db { signals = db.signals ++ (new ∷ []); next_signal = db.next_signal + 1 }

-- A call whose arguments pass the checks inserts the row, unless the symbol's slot is taken.
pub create_signal_checked :
    (n : NewSignal) (now : Timestamp) (row : ℕ → Signal) (db : Db)
    → IsTable db
    → check_signal n now ≡ ok row
    → create_signal n now db ≡ (
        if any (active_for (row 0).symbol) db.signals
        then (err signal_exists, db)
        else (ok (row db.next_signal), with_new db (row db.next_signal)))
unfolding create_signal
create_signal_checked n now row db v h =
    let (_, ids, symbols, _, _) =
      Ensures-eq_ok (IsPrepared n now) _ row (check_signal-Ensures n now) h in
    let none_left = fresh-count db.signals db.next_signal v.fresh in
    let found =
      find-append (has_signal_id db.next_signal) db.signals (row db.next_signal) none_left in
    ground (arith, symbols db.next_signal, ids db.next_signal, found)

pub create_signal_refused :
    (n : NewSignal) (now : Timestamp) (e : Error) (db : Db)
    → check_signal n now ≡ err e
    → create_signal n now db ≡ (err e, db)
unfolding create_signal
create_signal_refused n now e db h = ground arith

abbrev pub with_row : Db → ℕ → (Signal → Signal) → Db
with_row db i f = record db { signals = update_where (has_signal_id i) f db.signals }

module _ (i : ℕ) (new : Status) (t : Transition) (now : Timestamp) (db : Db)
    {price : Option Decimal} (priced : on_given to_decimal t.close_price ≡ ok price)
    (known : check_result t.result ≡ ok tt) where
  -- An unknown id.
  pub transition_signal_missing :
      find (has_signal_id i) db.signals ≡ none
      → transition_signal i (some new) t now db ≡ (err signal_not_found, db)
  unfolding transition_signal apply_transition
  transition_signal_missing h = ground arith

  -- A transition that the table of transitions does not allow.
  pub transition_signal_forbidden :
      {current : Signal}
      → find (has_signal_id i) db.signals ≡ some current
      → allowed_transition current.status new ≡ false
      → transition_signal i (some new) t now db ≡ (err invalid_transition, db)
  unfolding transition_signal apply_transition
  transition_signal_forbidden h f = ground arith

  -- An exit with no price.
  pub transition_signal_unpriced :
      {current : Signal}
      → find (has_signal_id i) db.signals ≡ some current
      → allowed_transition current.status new ≡ true
      → (needs_price new && is_none price) ≡ true
      → transition_signal i (some new) t now db ≡ (err signal_validation, db)
  unfolding transition_signal apply_transition
  transition_signal_unpriced h a u = ground arith

  -- An allowed transition rewrites the one row, and returns it.
  pub transition_signal_allowed :
      {current : Signal}
      → find (has_signal_id i) db.signals ≡ some current
      → allowed_transition current.status new ≡ true
      → (needs_price new && is_none price) ≡ false
      → transition_signal i (some new) t now db
        ≡ (ok (new_row new price t now current), with_row db i (new_row new price t now))
  unfolding transition_signal apply_transition
  transition_signal_allowed {current} h a u =
      let passes : has_signal_id i current ≡ true =
        find-passes (has_signal_id i) db.signals current h in
      let kept : has_signal_id i (new_row new price t now current) ≡ true =
        rw (new_row-id new price t now current) passes in
      let found =
        find-update_where (has_signal_id i) (new_row new price t now) db.signals current kept h in
      ground (arith, found)
