-- ===== src/Monitor.antt =====
-- `SignalMonitor` of signal_engine/monitor.py. A poll reads the active signal, fetches candles, and
-- writes in a later transaction; `between` is what other processes do to the tables in the meantime.
-- The notifications that a poll sends are part of its result; a failure to send one changes nothing.
pub mod Candles
pub mod Touches
pub mod Closing
pub mod Polls
pub mod Exits
mod Tests
use tool_trade.Common.{
  ℕ, Bool, true, false, Option, none, some, List, [], ◌∷◌, find, select, get_last?,
}
use tool_trade.Decimal.{Decimal}
use tool_trade.Market.{validate_symbol}
use tool_trade.Market.Klines.{Candle}
use tool_trade.Models.{
  Status, pending_entry, open_, tp_hit, sl_hit, number, CloseReason, tp, sl, Timestamp, Signal,
}
use tool_trade.Result
use tool_trade.Result.{
  Result, ok, err, Error, ◌>>=◌, invalid_transition, signal_not_found, malformed_kline, empty_kline,
  client_error,
}
use tool_trade.SignalRepository.{
  transition_signal, get_active_signal, get_active_signal_for_symbol, get_open_signal_for_symbol,
  no_details,
}
use tool_trade.SignalRepository.Types.{Transition}
use tool_trade.Store.{Db, Action}
use tool_trade.Text.{Text}
use Candles.{
  MonitorOutcome, no_active_signal, entry_hit, monitoring, ambiguous, data_unavailable, error,
  evaluate_candle, evaluate_entry,
}

-- A notification that the poll sends.
pub data Notice : Type 0 where
  opened closed_tp closed_sl ambiguous_candle : Signal → Notice

pub record MonitorResult : Type 0 where
  pub outcome : MonitorOutcome
  pub signal : Option Signal
  pub notices : List Notice

abbrev pub plain : MonitorOutcome → MonitorResult
plain outcome = record { outcome = outcome; signal = none; notices = [] }

abbrev pub of_signal : MonitorOutcome → Signal → List Notice → MonitorResult
of_signal outcome s notices = record { outcome = outcome; signal = some s; notices = notices }

-- Which symbol the monitor owns: any, a fixed one, or the one a callable returns at the poll.
pub data SymbolSource : Type 0 where
  any_symbol : SymbolSource
  fixed : Text → SymbolSource
  callable : Result Text → SymbolSource

-- `_symbol`, where `none` is every symbol.
abbrev pub owned_symbol : SymbolSource → Result (Option Text)
owned_symbol any_symbol = ok none
owned_symbol (fixed symbol) = ok (some symbol)
owned_symbol (callable source) = source >>= λ text. validate_symbol text >>= λ s. ok (some s)

abbrev pub active_of : Option Text → Action (Option Signal)
active_of none = get_active_signal
active_of (some symbol) = get_active_signal_for_symbol symbol

-- `_active`
abbrev pub active : SymbolSource → Db → Result (Option Signal)
active source db = owned_symbol source >>= λ symbol. (active_of symbol db).0

-- What `_open` makes of the signal that it reads again after a refused transition.
observed : Signal → Status → MonitorResult
observed current open_ = of_signal entry_hit current []
observed current _ = plain error

after_lost_race : Result (Option Signal) → MonitorResult
unfolding observed
after_lost_race (ok none) = plain no_active_signal
after_lost_race (ok (some current)) = observed current current.status
after_lost_race (err e) = plain error

after_open : Signal → Result Signal × Db → MonitorResult × Db
unfolding after_lost_race
after_open s (ok row, db) = (of_signal entry_hit row (opened row ∷ []), db)
after_open s (err invalid_transition, db) =
    (after_lost_race (get_active_signal_for_symbol s.symbol db).0, db)
after_open s (err signal_not_found, db) = (plain no_active_signal, db)
after_open s (err _, db) = (plain error, db)

-- `_open`
pub open_signal : Signal → Timestamp → Db → MonitorResult × Db
unfolding after_open
open_signal s now db = after_open s (transition_signal s.id (some open_) no_details now db)

-- The exit that an outcome stands for: its status, its price and its reason.
abbrev pub exit_status : MonitorOutcome → Status
exit_status Candles.tp_hit = tp_hit
exit_status _ = sl_hit

abbrev pub exit_price : MonitorOutcome → Signal → Decimal
exit_price Candles.tp_hit s = s.take_profit
exit_price _ s = s.stop_loss

abbrev pub exit_reason : MonitorOutcome → CloseReason
exit_reason Candles.tp_hit = tp
exit_reason _ = sl

abbrev pub exit_notice : MonitorOutcome → Signal → Notice
exit_notice Candles.tp_hit s = closed_tp s
exit_notice _ s = closed_sl s

abbrev pub exit_details : MonitorOutcome → Signal → Transition
exit_details outcome s = record no_details {
  close_price = some (number (exit_price outcome s));
  close_reason = some (exit_reason outcome);
}

after_lost_close : Result (Option Signal) → MonitorResult
after_lost_close (ok none) = plain no_active_signal
after_lost_close _ = plain error

after_close : MonitorOutcome → Signal → Result Signal × Db → MonitorResult × Db
unfolding after_lost_close
after_close outcome s (ok row, db) = (of_signal outcome row (exit_notice outcome row ∷ []), db)
after_close outcome s (err invalid_transition, db) =
    (after_lost_close (get_open_signal_for_symbol s.symbol db).0, db)
after_close outcome s (err signal_not_found, db) = (plain no_active_signal, db)
after_close outcome s (err _, db) = (plain error, db)

-- `_close`
pub close_signal : Signal → MonitorOutcome → Timestamp → Db → MonitorResult × Db
unfolding after_close
close_signal s outcome now db =
    after_close outcome s
      (transition_signal s.id (some (exit_status outcome)) (exit_details outcome s) now db)

-- `_evaluate_pending_entry`, from the decision on.
on_entry : Signal → Result MonitorOutcome → Timestamp → Db → MonitorResult × Db
unfolding open_signal
on_entry s (err _) now db = (plain data_unavailable, db)
on_entry s (ok ambiguous) now db = (of_signal ambiguous s (ambiguous_candle s ∷ []), db)
on_entry s (ok monitoring) now db = (of_signal monitoring s [], db)
on_entry s (ok _) now db = open_signal s now db

-- `_evaluate_open_position`, from the decision on.
on_exit : Signal → Result MonitorOutcome → Timestamp → Db → MonitorResult × Db
unfolding close_signal
on_exit s (err _) now db = (plain data_unavailable, db)
on_exit s (ok ambiguous) now db = (of_signal ambiguous s (ambiguous_candle s ∷ []), db)
on_exit s (ok monitoring) now db = (of_signal monitoring s [], db)
on_exit s (ok outcome) now db = close_signal s outcome now db

pub evaluate_pending_entry : Signal → Decimal → Decimal → Timestamp → Db → MonitorResult × Db
unfolding on_entry
evaluate_pending_entry s high low now db = on_entry s (evaluate_entry s high low) now db

pub evaluate_open_position : Signal → Decimal → Decimal → Timestamp → Db → MonitorResult × Db
unfolding on_exit
evaluate_open_position s high low now db = on_exit s (evaluate_candle s high low) now db

-- The test of the status of the signal that was read.
by_status : Signal → Status → Decimal → Decimal → Timestamp → Db → MonitorResult × Db
unfolding evaluate_pending_entry evaluate_open_position
by_status s pending_entry high low now db = evaluate_pending_entry s high low now db
by_status s _ high low now db = evaluate_open_position s high low now db

-- `except BinanceError`, and any other exception of the fetch.
abbrev pub fetch_failed : Error → MonitorOutcome
fetch_failed malformed_kline = data_unavailable
fetch_failed empty_kline = data_unavailable
fetch_failed client_error = data_unavailable
fetch_failed _ = error

-- The newest of the closed candles.
abbrev pub latest_closed : List Candle → Option Candle
latest_closed candles = get_last? (select (λ c. Candle.is_closed c) candles)

on_latest : Signal → Option Candle → Timestamp → Db → MonitorResult × Db
unfolding by_status
on_latest s none now db = (plain data_unavailable, db)
on_latest s (some latest) now db =
    by_status s s.status (Candle.high latest) (Candle.low latest) now db

after_fetch : Signal → Result (List Candle) → Timestamp → Db → MonitorResult × Db
unfolding on_latest
after_fetch s (err e) now db = (plain (fetch_failed e), db)
after_fetch s (ok candles) now db = on_latest s (latest_closed candles) now db

after_read :
    Result (Option Signal)
    → (Text → Result (List Candle))
    → (Db → Db)
    → Timestamp
    → Db
    → MonitorResult × Db
unfolding after_fetch
after_read (err _) fetch between now db = (plain no_active_signal, db)
after_read (ok none) fetch between now db = (plain no_active_signal, db)
after_read (ok (some s)) fetch between now db = after_fetch s (fetch s.symbol) now (between db)

pub poll :
    SymbolSource → (Text → Result (List Candle)) → (Db → Db) → Timestamp → Db → MonitorResult × Db
unfolding after_read
poll source fetch between now db = after_read (active source db) fetch between now db
