-- ===== src/Backtest/Decisions.antt =====
-- `BacktestEngine`: what it is given, the checks of its constructor, and one decision of `run`.
use tool_trade.Common.{
  ◌+◌, false, not, Option, none, some, List, [], ◌∷◌, ◌++◌, length, ltb, if◌then◌else◌,
}
use tool_trade.Market.Klines.{Candle}
use tool_trade.Models.{Direction, long, short, wait, unknown, Timestamp}
use tool_trade.Result.{
  Result, ok, err, ◌>>=◌, ◌>>◌, raise_if, reraise, backtest_execution, signal_validation,
}
use tool_trade.Text.{Text, text_eq, is_empty}
use tool_trade.Validator.{SignalAnalysis, SignalCandidate, validate_analysis}
use tool_trade.Validator.Guardrails.{GuardrailConfig}
use tool_trade.Backtest.Config.{BacktestConfig}
use tool_trade.Backtest.Data.{HistoricalData}
use tool_trade.Backtest.Records.{ActiveSignal, BlockReason, active_signal, event_blackout, RunState}

-- What a run is given besides the data. `indicators` is whether `compute_indicator_matrix` returns for
-- a window; the matrix is a function of the window, so `decide` takes the window alone. `none` is an
-- answer that is no `SignalAnalysis`. `guards` are those of the environment.
pub record Engine : Type 0 where
  pub config : BacktestConfig
  pub indicators : List Candle → Result (Unit {0})
  pub decide : List Candle → Result (Option SignalAnalysis)
  pub provider : Text
  pub model : Text
  pub guards : GuardrailConfig
  pub blackout : Option (Timestamp → Option Text)

-- The checks of `__init__`.
unfoldable check_engine : Engine → HistoricalData → Result (Unit {0})
check_engine e d = do
  raise_if (not (text_eq d.symbol e.config.symbol)) backtest_execution
  raise_if (not (text_eq d.timeframe e.config.timeframe)) backtest_execution
  raise_if (not (text_eq d.execution_interval e.config.execution_interval)) backtest_execution
  raise_if (ltb (length d.hour_candles) e.config.min_candles) backtest_execution

-- A candle that is not analysed.
abbrev pub blocked :
    Timestamp → Timestamp → BlockReason → Option Direction → Option Timestamp → RunState → RunState
blocked candle_ts decision_time reason direction active_ts st = record st {
  blocked_count = st.blocked_count + 1;
  blocked_events =
      st.blocked_events
      ++ (record {
        candle_ts = candle_ts;
        decision_time = decision_time;
        reason = reason;
        active_direction = direction;
        active_signal_candle_ts = active_ts;
      }
          ∷ []);
}

abbrev pub recorded : Engine → Candle → SignalAnalysis → RunState → RunState
recorded e c a st = record st {
  analyzed = st.analyzed + 1;
  decisions =
      st.decisions
      ++ (record {
        candle_ts = Candle.timestamp c;
        decision = a.decision;
        confidence = a.confidence;
        candle_close_price = a.candle_close_price;
        provider = e.provider;
        model = e.model;
      }
          ∷ []);
}

abbrev pub count_long : RunState → RunState
count_long st = record st { long_decisions = st.long_decisions + 1 }

abbrev pub count_short : RunState → RunState
count_short st = record st { short_decisions = st.short_decisions + 1 }

abbrev pub count_wait : RunState → RunState
count_wait st = record st { wait_count = st.wait_count + 1 }

abbrev pub rejected : Candle → SignalAnalysis → RunState → RunState
rejected c a st = record st {
  rejected_count = st.rejected_count + 1;
  rejected_events =
      st.rejected_events ++ (record { candle_ts = Candle.timestamp c; decision = a.decision } ∷ []);
}

abbrev pub activated : Candle → Timestamp → SignalCandidate → RunState → RunState
activated c decision_time k st = record st {
  active = some (record {
    signal_candle_ts = Candle.timestamp c;
    decision_time = decision_time;
    direction = k.decision;
    entry = k.entry;
    stop_loss = k.stop_loss;
    take_profit = k.take_profit;
    ndx = st.created_counter;
    fill = none;
    exit = none;
    was_ambiguous = false;
  });
  created_counter = st.created_counter + 1;
}

-- The validation of a LONG or SHORT decision.
unfoldable pub on_validated :
    Candle → Timestamp → SignalAnalysis → RunState → Result SignalCandidate → Result RunState
on_validated c decision_time a st (ok k) = ok (activated c decision_time k st)
on_validated c decision_time a st (err signal_validation) = ok (rejected c a st)
on_validated c decision_time a st (err e) = err e

unfoldable pub on_decision :
    Engine → Candle → Timestamp → SignalAnalysis → RunState → Direction → Result RunState
unfolding on_validated
on_decision e c decision_time a st long =
    on_validated c decision_time a (count_long st) (validate_analysis a e.guards)
on_decision e c decision_time a st short =
    on_validated c decision_time a (count_short st) (validate_analysis a e.guards)
on_decision e c decision_time a st wait = ok (count_wait st)
on_decision e c decision_time a st unknown = err backtest_execution

unfoldable pub on_answer :
    Engine → Candle → Timestamp → RunState → Option SignalAnalysis → Result RunState
unfolding on_decision
on_answer e c decision_time st none = err backtest_execution
on_answer e c decision_time st (some a) =
    on_decision e c decision_time a (recorded e c a st) a.decision

unfoldable pub decide_candle :
    Engine → List Candle → Candle → Timestamp → RunState → Result RunState
unfolding on_answer
decide_candle e window c decision_time st = do
  e.indicators window
  answer ← reraise (e.decide window) backtest_execution
  on_answer e c decision_time st answer

-- The reason that the blackout gives, where there is one and gives a text that is not empty.
abbrev pub blackout_reason : Option (Timestamp → Option Text) → Timestamp → Option Text
blackout_reason none t = none
blackout_reason (some f) t = elim (f t) [
  | none ↦ none
  | some reason ↦ if is_empty reason then none else some reason
]

unfoldable pub after_blackout :
    Engine → List Candle → Candle → Timestamp → RunState → Option Text → Result RunState
unfolding decide_candle
after_blackout e window c decision_time st (some reason) =
    ok (blocked (Candle.timestamp c) decision_time (event_blackout reason) none none st)
after_blackout e window c decision_time st none = decide_candle e window c decision_time st

-- One decision candle, after its minutes.
unfoldable pub on_candle :
    Engine → List Candle → Candle → Timestamp → RunState → Option ActiveSignal → Result RunState
unfolding after_blackout
on_candle e window c decision_time st (some a) = ok (
    blocked (Candle.timestamp c) decision_time active_signal (some a.direction)
      (some a.signal_candle_ts) st)
on_candle e window c decision_time st none =
    after_blackout e window c decision_time st (blackout_reason e.blackout decision_time)
