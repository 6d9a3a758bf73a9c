-- ===== src/Monitor/Exits.antt =====
-- The polls that close a signal.
use tool_trade.Common.{◌≡◌, ◌≢◌, refl, sym, ap, Option, none, some, List}
use tool_trade.Decimal.{Decimal}
use tool_trade.Market.Klines.{Candle}
use tool_trade.Models.{Status, pending_entry, Timestamp, Signal}
use tool_trade.Result.{Result, ok, err, Error, malformed_kline}
use tool_trade.Store.{Db}
use tool_trade.Text.{Text}
use tool_trade.Monitor.{
  MonitorResult, SymbolSource, active, latest_closed, fetch_failed, on_entry, on_exit, by_status,
  on_latest, evaluate_pending_entry, evaluate_open_position, after_fetch, after_read, poll,
  close_signal,
}
use tool_trade.Monitor.Candles.{
  MonitorOutcome, monitoring, ambiguous, evaluate_candle, evaluate_entry,
}
use tool_trade.Monitor.Closing.{IsExit, Closed, close_signal-Closed, open_signal-not}

-- The candle c closed the position of s.
abbrev pub ClosedBy : Signal → Decimal → Decimal → MonitorResult → Db → Db → Type 0
ClosedBy s high low r db db' =
    (evaluate_candle s high low ≡ ok r.outcome) × Closed r.outcome s r db db'

on_entry-not :
    (s : Signal) (r : Result MonitorOutcome) (now : Timestamp) (db : Db)
    → ¬ IsExit (on_entry s r now db).0.outcome
unfolding on_entry
on_entry-not s (err _) now db h = h
on_entry-not s (ok ambiguous) now db h = h
on_entry-not s (ok monitoring) now db h = h
on_entry-not s (ok _) now db h = open_signal-not s now db h

closing :
    (s : Signal) (outcome : MonitorOutcome) (now : Timestamp) (db : Db)
    → IsExit (close_signal s outcome now db).0.outcome
    → (outcome ≡ (close_signal s outcome now db).0.outcome)
      × Closed
          (close_signal s outcome now db).0.outcome
          s
          (close_signal s outcome now db).0
          db
          (close_signal s outcome now db).1
closing s outcome now db h =
    let (e, closed) = close_signal-Closed s outcome now db h in (sym e, rw e closed)

on_exit-Closed :
    (s : Signal) (r : Result MonitorOutcome) (now : Timestamp) (db : Db)
    → IsExit (on_exit s r now db).0.outcome
    → (r ≡ ok (on_exit s r now db).0.outcome)
      × Closed (on_exit s r now db).0.outcome s (on_exit s r now db).0 db (on_exit s r now db).1
unfolding on_exit
on_exit-Closed s (err _) now db h = absurd h
on_exit-Closed s (ok ambiguous) now db h = absurd h
on_exit-Closed s (ok monitoring) now db h = absurd h
on_exit-Closed s (ok outcome) now db h =
    let (e, closed) = closing s outcome now db h in (ap (λ o. ok o) e, closed)

by_status-Closed :
    (s : Signal) (status : Status) (high low : Decimal) (now : Timestamp) (db : Db)
    → IsExit (by_status s status high low now db).0.outcome
    → (status ≢ pending_entry)
      × ClosedBy s high low
          (by_status s status high low now db).0
          db
          (by_status s status high low now db).1
unfolding by_status evaluate_pending_entry evaluate_open_position
by_status-Closed s pending_entry high low now db h =
    absurd (on_entry-not s (evaluate_entry s high low) now db h)
by_status-Closed s _ high low now db h =
    (λ e. cc, on_exit-Closed s (evaluate_candle s high low) now db h)

-- What closed the signal s: the newest closed candle of those that were fetched.
abbrev pub ClosedByLatest : Signal → Result (List Candle) → MonitorResult → Db → Db → Type 0
ClosedByLatest s fetched r db db' =
    (candles : List Candle) × (c : Candle) × (fetched ≡ ok candles)
    × (latest_closed candles ≡ some c)
    × (s.status ≢ pending_entry)
    × ClosedBy s (Candle.high c) (Candle.low c) r db db'

on_latest-Closed :
    (s : Signal) (candles : List Candle) (latest : Option Candle) (now : Timestamp) (db : Db)
    → latest_closed candles ≡ latest
    → IsExit (on_latest s latest now db).0.outcome
    → ClosedByLatest s (ok candles) (on_latest s latest now db).0 db (on_latest s latest now db).1
unfolding on_latest
on_latest-Closed s candles none now db e h = absurd h
on_latest-Closed s candles (some c) now db e h =
    let (active, by) = by_status-Closed s s.status (Candle.high c) (Candle.low c) now db h in
    (candles, c, refl, e, active, by)

fetch_failed-not : (e : Error) → ¬ IsExit (fetch_failed e)
fetch_failed-not malformed_kline h = h
fetch_failed-not _ h = h

after_fetch-Closed :
    (s : Signal) (r : Result (List Candle)) (now : Timestamp) (db : Db)
    → IsExit (after_fetch s r now db).0.outcome
    → ClosedByLatest s r (after_fetch s r now db).0 db (after_fetch s r now db).1
unfolding after_fetch
after_fetch-Closed s (err e) now db h = absurd (fetch_failed-not e h)
after_fetch-Closed s (ok candles) now db h =
    on_latest-Closed s candles (latest_closed candles) now db refl h

after_read-Closed :
    (read : Result (Option Signal)) (fetch : Text → Result (List Candle)) (between : Db → Db)
    (now : Timestamp) (db : Db)
    → let (r, db') = after_read read fetch between now db in
      IsExit r.outcome
      → (s : Signal) × (read ≡ ok (some s)) × ClosedByLatest s (fetch s.symbol) r (between db) db'
unfolding after_read
after_read-Closed (err _) fetch between now db h = absurd h
after_read-Closed (ok none) fetch between now db h = absurd h
after_read-Closed (ok (some s)) fetch between now db h =
    (s, refl, after_fetch-Closed s (fetch s.symbol) now (between db) h)

-- A poll whose outcome is TP_HIT or SL_HIT has read an active signal that was not pending, its newest
-- closed candle has that outcome for it, its row was OPEN when the poll wrote, and the row is now
-- closed with that status at the configured level. That row is the poll's result and its one
-- notification.
pub poll-Closed :
    (source : SymbolSource) (fetch : Text → Result (List Candle)) (between : Db → Db)
    (now : Timestamp) (db : Db)
    → IsExit (poll source fetch between now db).0.outcome
    → (s : Signal) × (active source db ≡ ok (some s))
      × ClosedByLatest s
          (fetch s.symbol)
          (poll source fetch between now db).0
          (between db)
          (poll source fetch between now db).1
unfolding poll
poll-Closed source fetch between now db = after_read-Closed (active source db) fetch between now db
