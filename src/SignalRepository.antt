-- ===== src/SignalRepository.antt =====
-- `SignalRepository` of database/database.py. A call that reads the clock takes the time as `now`.
pub mod Types
pub mod Ids
pub mod Delete
pub mod Listing
pub mod Invariant
pub mod Create
pub mod Calls
pub mod History
pub mod Evolution
pub mod Rewritten
pub mod Outcomes
pub mod Runs
pub mod Deleted
mod Tests
use tool_trade.Common.{
  ℕ, ◌+◌, ◌-◌, Bool, true, false, not, ◌&&◌, ◌||◌, Option, none, some, List, [], ◌∷◌, ◌++◌, map,
  ◌==◌, ltb, leb, if◌then◌else◌, ℤ, pos, negsuc, find, select, any, update_where, length,
}
use tool_trade.Decimal.{Decimal}
use tool_trade.Market.{validate_symbol, validate_interval}
use tool_trade.Models.{
  Direction, is_direction, Status, pending_entry, open_, tp_hit, sl_hit, cancelled, is_active,
  status_eq, allowed_transition, Value, IntArg, integer, not_integer, Outcome, win, loss, other,
  CloseReason, of_status, Timestamp, Metadata, Signal, to_decimal, temperature_to_text,
  validate_signal_prices,
}
use tool_trade.Result
use tool_trade.Result.{
  Result, ok, err, raise_if, on_given, or_raise, signal_validation, signal_not_found, signal_exists,
  invalid_transition,
}
use tool_trade.Store.{Db, Action, ◌>>=◌, ◌>>◌, pure, raise, lift, gets, transaction, modify}
use tool_trade.Text.{Text, text_eq, strip, is_empty}
use Types.{NewSignal, Transition, given_or, check_signal}

-- A row that holds the one-active slot of a symbol.
abbrev pub active_for : Text → Signal → Bool
active_for symbol s = text_eq s.symbol symbol && is_active s.status

abbrev pub open_for : Text → Signal → Bool
open_for symbol s = text_eq s.symbol symbol && status_eq s.status open_

abbrev pub has_signal_id : ℕ → Signal → Bool
has_signal_id i s = s.id == i

unfoldable pub get_signal : ℕ → Action Signal
get_signal signal_id = do
  row ← gets λ db. find (has_signal_id signal_id) db.signals
  lift (or_raise row signal_not_found)

pub get_open_signal : Action (Option Signal)
get_open_signal = gets λ db. find (λ s. status_eq s.status open_) db.signals

abbrev pub get_open_signal_for_symbol : Text → Action (Option Signal)
get_open_signal_for_symbol symbol = gets λ db. find (open_for symbol) db.signals

unfoldable pub get_active_signal : Action (Option Signal)
get_active_signal = gets λ db. find (λ s. is_active s.status) db.signals

abbrev pub get_active_signal_for_symbol : Text → Action (Option Signal)
get_active_signal_for_symbol symbol = gets λ db. find (active_for symbol) db.signals

pub list_active_signals : Action (List Signal)
list_active_signals = gets λ db. select (λ s. is_active s.status) db.signals

-- The INSERT, after the test of the slot inside the same transaction; returns the new id.
pub insert_signal : (ℕ → Signal) → Action ℕ
insert_signal row db =
    let new = row db.next_signal in
    if any (active_for new.symbol) db.signals then (err signal_exists, db) else (
      ok db.next_signal,
      record db { signals = db.signals ++ (new ∷ []); next_signal = db.next_signal + 1 },
    )

pub create_signal : NewSignal → Timestamp → Action Signal
unfolding insert_signal get_signal
create_signal n now = do
  row ← lift (check_signal n now)
  signal_id ← transaction (insert_signal row)
  get_signal signal_id

-- The UPDATE of a transition to OPEN.
abbrev pub opened_row : Timestamp → Signal → Signal
opened_row opened s = record s {
  status = open_;
  opened_at = some opened;
  closed_at = none;
  close_price = none;
  close_reason = none;
  result = none;
}

-- The UPDATE of any other transition.
abbrev pub closed_row :
    Status → Timestamp → Option Decimal → Option CloseReason → Option Outcome → Signal → Signal
closed_row new_status closed price reason result s = record s {
  status = new_status;
  closed_at = some closed;
  close_price = price;
  close_reason = some (elim reason [ none ↦ of_status new_status | some r ↦ r ]);
  result = result;
}

-- `result not in ("WIN", "LOSS")`
abbrev pub check_result : Option Outcome → Result (Unit {0})
check_result (some other) = err signal_validation
check_result _ = ok tt

abbrev pub needs_price : Status → Bool
needs_price s = status_eq s tp_hit || status_eq s sl_hit

abbrev pub is_none {ℓ} : {A : Type ℓ} → Option A → Bool
is_none none = true
is_none (some _) = false

abbrev pub new_row : Status → Option Decimal → Transition → Timestamp → Signal → Signal
new_row new_status price t now s =
    if status_eq new_status open_
    then opened_row (given_or t.opened_at now) s
    else closed_row new_status (given_or t.closed_at now) price t.close_reason t.result s

-- The body of the transaction.
unfoldable pub apply_transition :
    ℕ → Status → Option Decimal → Transition → Timestamp → Action Signal
unfolding get_signal
apply_transition signal_id new_status price t now = do
  current ← get_signal signal_id
  lift (raise_if (not (allowed_transition current.status new_status)) invalid_transition)
  lift (raise_if (needs_price new_status && is_none price) signal_validation)
  modify λ db. record db {
    signals = update_where (has_signal_id signal_id) (new_row new_status price t now) db.signals;
  }
  get_signal signal_id

-- `none` is a status text that is not in `STATUSES`.
unfoldable pub transition_signal : ℕ → Option Status → Transition → Timestamp → Action Signal
transition_signal signal_id new_status t now = do
  status ← lift (or_raise new_status signal_validation)
  price ← lift (on_given to_decimal t.close_price)
  lift (check_result t.result)
  transaction (apply_transition signal_id status price t now)

abbrev pub no_details : Transition
no_details = record {
  close_price = none;
  close_reason = none;
  result = none;
  closed_at = none;
  opened_at = none;
}

pub cancel_signal : ℕ → Option CloseReason → Timestamp → Action Signal
unfolding transition_signal
cancel_signal signal_id reason now =
    transition_signal signal_id (some cancelled) (record no_details { close_reason = reason }) now
