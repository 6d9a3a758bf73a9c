-- ===== src/Monitor/Polls.antt =====
-- Whole polls, with whatever other processes do between their reads and their writes.
use tool_trade.Common.{Option, none, some, List}
use tool_trade.Decimal.{Decimal}
use tool_trade.Market.Klines.{Candle}
use tool_trade.Models.{Status, pending_entry, Timestamp, Signal}
use tool_trade.Result.{Result, ok, err}
use tool_trade.Store.{Db}
use tool_trade.Text.{Text}
use tool_trade.SignalRepository.Calls.{IsTable}
use tool_trade.SignalRepository.History.{Evolves, IsLater-refl, IsLater-trans}
use tool_trade.Monitor.{
  SymbolSource, active, latest_closed, on_entry, on_exit, by_status, on_latest,
  evaluate_pending_entry, evaluate_open_position, after_fetch, after_read, poll,
}
use tool_trade.Monitor.Candles.{
  MonitorOutcome, monitoring, ambiguous, evaluate_candle, evaluate_entry,
}
use tool_trade.Monitor.Closing.{close_signal-Evolves, open_signal-Evolves}

on_entry-Evolves :
    (s : Signal) (r : Result MonitorOutcome) (now : Timestamp) (db : Db)
    → IsTable db
    → Evolves db (on_entry s r now db).1
unfolding on_entry
on_entry-Evolves s (err _) now db v = (v, IsLater-refl db)
on_entry-Evolves s (ok ambiguous) now db v = (v, IsLater-refl db)
on_entry-Evolves s (ok monitoring) now db v = (v, IsLater-refl db)
on_entry-Evolves s (ok _) now db v = open_signal-Evolves s now db v

on_exit-Evolves :
    (s : Signal) (r : Result MonitorOutcome) (now : Timestamp) (db : Db)
    → IsTable db
    → Evolves db (on_exit s r now db).1
unfolding on_exit
on_exit-Evolves s (err _) now db v = (v, IsLater-refl db)
on_exit-Evolves s (ok ambiguous) now db v = (v, IsLater-refl db)
on_exit-Evolves s (ok monitoring) now db v = (v, IsLater-refl db)
on_exit-Evolves s (ok outcome) now db v = close_signal-Evolves s outcome now db v

by_status-Evolves :
    (s : Signal) (status : Status) (high low : Decimal) (now : Timestamp) (db : Db)
    → IsTable db
    → Evolves db (by_status s status high low now db).1
unfolding by_status evaluate_pending_entry evaluate_open_position
by_status-Evolves s pending_entry high low now db v =
    on_entry-Evolves s (evaluate_entry s high low) now db v
by_status-Evolves s _ high low now db v = on_exit-Evolves s (evaluate_candle s high low) now db v

on_latest-Evolves :
    (s : Signal) (latest : Option Candle) (now : Timestamp) (db : Db)
    → IsTable db
    → Evolves db (on_latest s latest now db).1
unfolding on_latest
on_latest-Evolves s none now db v = (v, IsLater-refl db)
on_latest-Evolves s (some c) now db v = by_status-Evolves s s.status _ _ now db v

after_fetch-Evolves :
    (s : Signal) (r : Result (List Candle)) (now : Timestamp) (db : Db)
    → IsTable db
    → Evolves db (after_fetch s r now db).1
unfolding after_fetch
after_fetch-Evolves s (err e) now db v = (v, IsLater-refl db)
after_fetch-Evolves s (ok candles) now db v = on_latest-Evolves s (latest_closed candles) now db v

after_read-Evolves :
    (r : Result (Option Signal)) (fetch : Text → Result (List Candle)) (between : Db → Db)
    (now : Timestamp) (db : Db)
    → ((db : Db) → IsTable db → Evolves db (between db))
    → IsTable db
    → Evolves db (after_read r fetch between now db).1
unfolding after_read
after_read-Evolves (err _) fetch between now db others v = (v, IsLater-refl db)
after_read-Evolves (ok none) fetch between now db others v = (v, IsLater-refl db)
after_read-Evolves (ok (some s)) fetch between now db others v =
    let (v', later) = others db v in
    let (v'', later') = after_fetch-Evolves s (fetch s.symbol) now (between db) v' in
    (v'', IsLater-trans db (between db) _ v later later')

-- A poll keeps the tables valid and every signal what it was, whatever the market data is, if the
-- other processes do, which act between its read and its write.
pub poll-Evolves :
    (source : SymbolSource) (fetch : Text → Result (List Candle)) (between : Db → Db)
    (now : Timestamp) (db : Db)
    → ((db : Db) → IsTable db → Evolves db (between db))
    → IsTable db
    → Evolves db (poll source fetch between now db).1
unfolding poll
poll-Evolves source fetch between now db =
    after_read-Evolves (active source db) fetch between now db
