-- ===== src/Monitor/Closing.antt =====
-- What `_close` and `_open` do where they change the signal.
use tool_trade.Common.{◌≡◌, refl, sym, true, Option, none, some, [], ◌∷◌, find, arith, subst}
use tool_trade.Decimal.{Decimal}
use tool_trade.Models
use tool_trade.Models.{
  CloseReason, tp, sl, Status, open_, Timestamp, Signal, allowed_transition, to_decimal,
}
use tool_trade.Models.Prices.{given-to_decimal}
use tool_trade.Result.{Result, ok, err, on_given, invalid_transition, signal_not_found}
use tool_trade.Store.{Db}
use tool_trade.SignalRepository.{
  transition_signal, has_signal_id, new_row, no_details, get_open_signal_for_symbol,
  get_active_signal_for_symbol,
}
use tool_trade.SignalRepository.Rewritten.{transition_signal-Rewritten, Rewritten-found}
use tool_trade.Monitor.{
  MonitorResult, exit_status, exit_price, exit_notice, exit_details, after_close, after_lost_close,
  close_signal, open_signal, after_open, observed, after_lost_race,
}
use tool_trade.SignalRepository.Calls.{IsTable}
use tool_trade.SignalRepository.History.{Evolves}
use tool_trade.SignalRepository.Evolution.{transition_signal-Evolves}
use tool_trade.Monitor.Candles.{MonitorOutcome, tp_hit, sl_hit}

-- An exit.
abbrev pub IsExit : MonitorOutcome → Type 0
IsExit tp_hit = Unit
IsExit sl_hit = Unit
IsExit _ = ⊥

-- The row of a signal that left at its take profit, or else at its stop loss.
abbrev pub IsExitRow : MonitorOutcome → Signal → Signal → Type 0
IsExitRow tp_hit s row =
    (row.status ≡ Models.tp_hit)
    × (row.close_price ≡ some s.take_profit)
    × (row.close_reason ≡ some tp)
IsExitRow _ s row =
    (row.status ≡ Models.sl_hit)
    × (row.close_price ≡ some s.stop_loss)
    × (row.close_reason ≡ some sl)

-- The poll closed the signal s: its row was OPEN, and is now closed at the configured level.
pub record Closed (outcome : MonitorOutcome) (s : Signal) (r : MonitorResult) (db db' : Db)
    : Type 0 where
  pub current : Signal
  pub row : Signal
  pub was : find (has_signal_id s.id) db.signals ≡ some current
  pub was_open : current.status ≡ open_
  pub returned : r.signal ≡ some row
  pub notified : r.notices ≡ exit_notice outcome row ∷ []
  pub found : find (has_signal_id s.id) db'.signals ≡ some row
  pub status : row.status ≡ exit_status outcome
  pub close_price : row.close_price ≡ some (exit_price outcome s)
  pub booked : IsExitRow outcome s row

allowed-exit_status :
    (outcome : MonitorOutcome) (current : Status)
    → allowed_transition current (exit_status outcome) ≡ true
    → current ≡ open_
allowed-exit_status tp_hit open_ h = refl
allowed-exit_status tp_hit _ h = cc
allowed-exit_status _ open_ h = refl
allowed-exit_status _ _ h = cc

exit-row :
    (outcome : MonitorOutcome) (s current row : Signal) (price : Option Decimal) (now : Timestamp)
    → on_given to_decimal (exit_details outcome s).close_price ≡ ok price
    → row ≡ new_row (exit_status outcome) price (exit_details outcome s) now current
    → (row.status ≡ exit_status outcome)
      × (row.close_price ≡ some (exit_price outcome s))
      × IsExitRow outcome s row
exit-row tp_hit s current row price now h e =
    let same = given-to_decimal s.take_profit price h in ground arith
exit-row _ s current row price now h e =
    let same = given-to_decimal s.stop_loss price h in ground arith

lost_close-not : (r : Result (Option Signal)) → ¬ IsExit (after_lost_close r).outcome
unfolding after_lost_close
lost_close-not (ok none) h = h
lost_close-not (ok (some _)) h = h
lost_close-not (err _) h = h

-- A transition that returns, seen from `_close`.
after_close-outcome :
    (outcome : MonitorOutcome) (s : Signal) (p : Result Signal × Db)
    → IsExit (after_close outcome s p).0.outcome
    → (row : Signal) × (p.0 ≡ ok row)
      × ((after_close outcome s p).0.signal ≡ some row)
      × ((after_close outcome s p).0.notices ≡ exit_notice outcome row ∷ [])
      × ((after_close outcome s p).0.outcome ≡ outcome)
unfolding after_close
after_close-outcome outcome s (ok row, db) h = (row, refl, refl, refl, refl)
after_close-outcome outcome s (err invalid_transition, db) h =
    absurd (lost_close-not (get_open_signal_for_symbol s.symbol db).0 h)
after_close-outcome outcome s (err signal_not_found, db) h = absurd h
after_close-outcome outcome s (err _, db) h = absurd h

-- What `_close` and `_open` write is what the transition writes.
after_close-db :
    (outcome : MonitorOutcome) (s : Signal) (p : Result Signal × Db)
    → (after_close outcome s p).1 ≡ p.1
unfolding after_close
after_close-db outcome s (ok _, db) = refl
after_close-db outcome s (err invalid_transition, db) = refl
after_close-db outcome s (err signal_not_found, db) = refl
after_close-db outcome s (err _, db) = refl

after_open-db : (s : Signal) (p : Result Signal × Db) → (after_open s p).1 ≡ p.1
unfolding after_open
after_open-db s (ok _, db) = refl
after_open-db s (err invalid_transition, db) = refl
after_open-db s (err signal_not_found, db) = refl
after_open-db s (err _, db) = refl

pub close_signal-Evolves :
    (s : Signal) (outcome : MonitorOutcome) (now : Timestamp) (db : Db)
    → IsTable db
    → Evolves db (close_signal s outcome now db).1
unfolding close_signal
close_signal-Evolves s outcome now db v =
    subst (Evolves db) (sym (after_close-db outcome s _)) (
      transition_signal-Evolves s.id (some (exit_status outcome)) (exit_details outcome s) now db v)

pub open_signal-Evolves :
    (s : Signal) (now : Timestamp) (db : Db) → IsTable db → Evolves db (open_signal s now db).1
unfolding open_signal
open_signal-Evolves s now db v =
    subst (Evolves db) (sym (after_open-db s _))
      (transition_signal-Evolves s.id (some open_) no_details now db v)

observed-not : (s : Signal) (status : Status) → ¬ IsExit (observed s status).outcome
unfolding observed
observed-not s open_ h = h
observed-not s _ h = h

after_lost_race-not : (r : Result (Option Signal)) → ¬ IsExit (after_lost_race r).outcome
unfolding after_lost_race
after_lost_race-not (ok none) h = h
after_lost_race-not (ok (some s)) h = observed-not s s.status h
after_lost_race-not (err _) h = h

after_open-not : (s : Signal) (p : Result Signal × Db) → ¬ IsExit (after_open s p).0.outcome
unfolding after_open
after_open-not s (ok _, db) h = h
after_open-not s (err invalid_transition, db) h =
    after_lost_race-not (get_active_signal_for_symbol s.symbol db).0 h
after_open-not s (err signal_not_found, db) h = h
after_open-not s (err _, db) h = h

-- `_open` closes nothing.
pub open_signal-not :
    (s : Signal) (now : Timestamp) (db : Db) → ¬ IsExit (open_signal s now db).0.outcome
unfolding open_signal
open_signal-not s now db h =
    after_open-not s (transition_signal s.id (some open_) no_details now db) h

pub close_signal-Closed :
    (s : Signal) (outcome : MonitorOutcome) (now : Timestamp) (db : Db)
    → IsExit (close_signal s outcome now db).0.outcome
    → ((close_signal s outcome now db).0.outcome ≡ outcome)
      × Closed outcome s (close_signal s outcome now db).0 db (close_signal s outcome now db).1
unfolding close_signal
close_signal-Closed s outcome now db h =
    let call =
      transition_signal s.id (some (exit_status outcome)) (exit_details outcome s) now db in
    let (row, done, returned, notified, same) = after_close-outcome outcome s call h in
    let m =
      transition_signal-Rewritten s.id (exit_status outcome) (exit_details outcome s) now db row
        done in
    let (status, price, booked) = exit-row outcome s m.current row m.price now m.priced m.is_row in
    (
      same,
      record {
        current = m.current;
        row = row;
        was = m.was;
        was_open = allowed-exit_status outcome m.current.status m.allowed;
        returned = returned;
        notified = notified;
        found = rw (after_close-db outcome s call) (Rewritten-found m);
        status = status;
        close_price = price;
        booked = booked;
      },
    )
