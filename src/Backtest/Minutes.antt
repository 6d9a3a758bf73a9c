-- ===== src/Backtest/Minutes.antt =====
-- The closure `monitor` of `BacktestEngine.run`, and the loops that feed it the minute candles.
use tool_trade.Common.{◌+◌, true, Option, none, some, List, [], ◌∷◌, ◌++◌, ltb, if◌then◌else◌}
use tool_trade.Decimal
use tool_trade.Decimal.{Decimal}
use tool_trade.Market.Klines.{Candle}
use tool_trade.Models.{Timestamp}
use tool_trade.Result.{Result, ok, ◌>>=◌, reraise, backtest_execution}
use tool_trade.Monitor.Candles.{
  MonitorOutcome, entry_hit, monitoring, ambiguous, touch_exit, touch_entry,
}
use tool_trade.Backtest.Config.{BacktestConfig}
use tool_trade.Backtest.Records.{Fill, Exit, ActiveSignal, AmbiguityKind, entry, exit, RunState}
use tool_trade.Backtest.Fills.{open_fill, close_exit, pending_event, finalize_trade}

-- A candle whose order within the minute is not known.
abbrev pub note_ambiguity : ActiveSignal → Timestamp → AmbiguityKind → RunState → RunState
note_ambiguity a minute_ts kind st = record st {
  active = some (record a { was_ambiguous = true });
  ambiguous_events =
      st.ambiguous_events
      ++ (record {
        signal_candle_ts = a.signal_candle_ts;
        minute_ts = minute_ts;
        kind = kind;
        direction = a.direction;
      }
          ∷ []);
}

abbrev pub note_entry_ambiguity : RunState → RunState
note_entry_ambiguity st = record st { entry_ambiguity_count = st.entry_ambiguity_count + 1 }

abbrev pub note_exit_ambiguity : RunState → RunState
note_exit_ambiguity st = record st { exit_ambiguity_count = st.exit_ambiguity_count + 1 }

abbrev pub entered : ActiveSignal → RunState → Fill → RunState
entered a st f = record st {
  active = some (record a { fill = some f });
  entries_hit = st.entries_hit + 1;
}

-- The balance moves by the net profit, once.
abbrev pub closed : ActiveSignal → Fill → RunState → Exit → RunState
closed a f st e =
    let done : ActiveSignal = record a { exit = some e } in
    let balance = Decimal.add st.balance e.net_pnl in
    record st {
      balance = balance;
      equity_curve = st.equity_curve ++ (balance ∷ []);
      trades_completed = st.trades_completed + 1;
      trades = st.trades ++ (finalize_trade done f ∷ []);
      pending_events = st.pending_events ++ (pending_event done ∷ []);
      active = none;
    }

unfoldable pub on_entry :
    BacktestConfig → Timestamp → RunState → ActiveSignal → MonitorOutcome → Result RunState
on_entry config minute_ts st a entry_hit =
    open_fill config a minute_ts st.balance >>= λ f. ok (entered a st f)
on_entry config minute_ts st a ambiguous =
    ok (note_entry_ambiguity (note_ambiguity a minute_ts entry st))
on_entry config minute_ts st a _ = ok st

unfoldable pub on_exit :
    BacktestConfig → Timestamp → RunState → ActiveSignal → Fill → MonitorOutcome → Result RunState
on_exit config minute_ts st a f monitoring = ok st
on_exit config minute_ts st a f ambiguous =
    ok (note_exit_ambiguity (note_ambiguity a minute_ts exit st))
on_exit config minute_ts st a f outcome =
    close_exit config a f outcome minute_ts >>= λ e. ok (closed a f st e)

unfoldable pub on_fill :
    BacktestConfig → Candle → RunState → ActiveSignal → Option Fill → Result RunState
unfolding on_entry on_exit
on_fill config c st a none =
    touch_entry a.direction a.entry a.stop_loss a.take_profit (Candle.high c) (Candle.low c)
    >>= on_entry config (Candle.timestamp c) st a
on_fill config c st a (some f) =
    touch_exit a.direction a.stop_loss a.take_profit (Candle.high c) (Candle.low c)
    >>= on_exit config (Candle.timestamp c) st a f

unfoldable pub on_active :
    BacktestConfig → Candle → RunState → Option ActiveSignal → Result RunState
unfolding on_fill
on_active config c st none = ok st
on_active config c st (some a) =
    if ltb (Candle.timestamp c) a.decision_time then ok st else on_fill config c st a a.fill

unfoldable pub monitor : BacktestConfig → Candle → RunState → Result RunState
unfolding on_active
monitor config c st = on_active config c st st.active

-- `monitor` in its `try`: all it raises is a ValueError or an ArithmeticError.
unfoldable pub watch : BacktestConfig → Candle → RunState → Result RunState
unfolding monitor
watch config c st = reraise (monitor config c st) backtest_execution

abbrev pub with_minutes : List Candle → RunState → RunState
with_minutes minutes st = record st { minutes = minutes }

-- The minutes that opened before the time are watched in turn; the others are left.
unfoldable pub drain : BacktestConfig → Timestamp → List Candle → RunState → Result RunState
drain config until [] st = ok (with_minutes [] st)
drain config until (c ∷ cs) st =
    let rest = watch config c st >>= drain config until cs in
    if ltb (Candle.timestamp c) until then rest else ok (with_minutes (c ∷ cs) st)

-- The minutes that are left after the last decision.
unfoldable pub drain_all : BacktestConfig → List Candle → RunState → Result RunState
drain_all config [] st = ok (with_minutes [] st)
drain_all config (c ∷ cs) st = watch config c st >>= drain_all config cs
