-- ===== src/Backtest/Replay.antt =====
-- `BacktestEngine.run`: the loop over the decision candles, and what is returned.
use tool_trade.Common.{
  ℕ, ◌+◌, ◌-◌, Bool, true, false, Option, none, some, List, [], ◌∷◌, ◌++◌, length, take, drop,
  if◌then◌else◌,
}
use tool_trade.Market.Klines.{Candle}
use tool_trade.Models.{Direction, long}
use tool_trade.Result.{Result, ok, ◌>>=◌}
use tool_trade.Backtest.Config.{BacktestConfig, interval_to_ms}
use tool_trade.Backtest.Data.{HistoricalData}
use tool_trade.Backtest.Records.{ActiveSignal, PendingEvent, RunState, BacktestResult}
use tool_trade.Backtest.Fills.{pending_event, finalize_trade}
use tool_trade.Backtest.Minutes.{drain, drain_all}
use tool_trade.Backtest.Decisions.{Engine, on_candle}

-- One turn of the loop over the decision candles; the window ends with the candle.
unfoldable pub turn : Engine → ℕ → List Candle → Candle → RunState → Result RunState
unfolding on_candle
turn e period seen c st = do
  let decision_time = Candle.timestamp c + period
  ready ← drain e.config decision_time st.minutes st
  on_candle e (seen ++ (c ∷ [])) c decision_time ready ready.active

-- The loop, after the candles that were seen.
unfoldable pub loop : Engine → ℕ → List Candle → List Candle → RunState → Result RunState
loop e period seen [] st = ok st
loop e period seen (c ∷ cs) st = turn e period seen c st >>= loop e period (seen ++ (c ∷ [])) cs

abbrev pub initial_state : BacktestConfig → HistoricalData → RunState
initial_state config d = record {
  minutes = d.minute_candles;
  balance = config.initial_balance;
  equity_curve = config.initial_balance ∷ [];
  active = none;
  trades = [];
  pending_events = [];
  ambiguous_events = [];
  blocked_events = [];
  rejected_events = [];
  decisions = [];
  long_decisions = 0;
  short_decisions = 0;
  wait_count = 0;
  analyzed = 0;
  blocked_count = 0;
  rejected_count = 0;
  created_counter = 0;
  entries_hit = 0;
  trades_completed = 0;
  entry_ambiguity_count = 0;
  exit_ambiguity_count = 0;
}

abbrev pub is_long : Direction → Bool
is_long long = true
is_long _ = false

abbrev pub count_events : Bool → List PendingEvent → ℕ
count_events side [] = 0
count_events side (p ∷ ps) =
    (if is_long p.direction then (if side then 1 else 0) else (if side then 0 else 1))
    + count_events side ps

-- The signal that is still active at the end.
abbrev pub final_state : RunState → Option ActiveSignal → RunState
final_state st none = st
final_state st (some a) = record st {
  trades = elim a.fill [ none ↦ st.trades | some f ↦ st.trades ++ (finalize_trade a f ∷ []) ];
  pending_events = st.pending_events ++ (pending_event a ∷ []);
}

abbrev pub is_open : Option ActiveSignal → ℕ
is_open none = 0
is_open (some a) = elim a.fill [ none ↦ 0 | some f ↦ 1 ]

abbrev pub is_pending : Option ActiveSignal → ℕ
is_pending none = 0
is_pending (some a) = elim a.fill [ none ↦ 1 | some f ↦ 0 ]

abbrev pub summary_of : ℕ → RunState → Option ActiveSignal → BacktestResult
summary_of eligible st active =
    let last = final_state st active in
    record {
      eligible = eligible;
      long_created = count_events true last.pending_events;
      short_created = count_events false last.pending_events;
      open_at_end = is_open active;
      pending_at_end = is_pending active;
      ambiguous_total = st.entry_ambiguity_count + st.exit_ambiguity_count;
      state = last;
    }

unfoldable pub summary : ℕ → RunState → BacktestResult
summary eligible st = summary_of eligible st st.active

-- `run` of an engine that passed `check_engine`: there are at least `min_candles` hours, and at least one
-- is asked for, so that no difference is below zero.
unfoldable pub run : Engine → HistoricalData → Result BacktestResult
unfolding summary
run e d = do
  period ← interval_to_ms e.config.timeframe
  let first = e.config.min_candles - 1
  st ←
      loop e period (take first d.hour_candles) (drop first d.hour_candles)
        (initial_state e.config d)
  done ← drain_all e.config st.minutes st
  ok (summary (length d.hour_candles - first) done)
