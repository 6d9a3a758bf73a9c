-- ===== src/Backtest/Counts.antt =====
-- The counters of a run of backtest/engine.py, and its lists.
use tool_trade.Common.{
  ℕ, ◌+◌, ◌≡◌, Option, none, some, List, [], ◌∷◌, ◌++◌, arith, length, length-append,
}
use tool_trade.Decimal
use tool_trade.Decimal.{Decimal}
use tool_trade.Market.Klines.{Candle}
use tool_trade.Models.{Direction, Timestamp}
use tool_trade.Validator.{SignalAnalysis}
use tool_trade.Backtest.Config.{BacktestConfig}
use tool_trade.Backtest.Records.{
  Fill, Exit, ActiveSignal, AmbiguityKind, entry, exit, BlockReason, RunState,
}
use tool_trade.Backtest.Fills.{pending_event, finalize_trade}
use tool_trade.Backtest.Minutes.{
  note_ambiguity, note_entry_ambiguity, note_exit_ambiguity, entered, closed,
}
use tool_trade.Backtest.Decisions.{Engine, blocked, recorded, rejected}
use tool_trade.Backtest.Replay.{is_open, is_pending}
use tool_trade.Backtest.Steps.{
  Minute, same, entering, unclear_entry, unclear_exit, closing, Decision, skipped, waited,
  refused_long, refused_short, went_long, went_short,
}

-- After n decision candles.
pub record IsCounted (n : ℕ) (st : RunState) : Type 0 where
  pub candles : n ≡ st.analyzed + st.blocked_count
  pub decided : st.analyzed ≡ st.wait_count + st.long_decisions + st.short_decisions
  pub directed : st.long_decisions + st.short_decisions ≡ st.created_counter + st.rejected_count
  pub signals : st.created_counter ≡ st.trades_completed + is_open st.active + is_pending st.active
  pub entries : st.entries_hit ≡ st.trades_completed + is_open st.active
  pub decisions : length st.decisions ≡ st.analyzed
  pub blocked_events : length st.blocked_events ≡ st.blocked_count
  pub rejected_events : length st.rejected_events ≡ st.rejected_count
  pub trades : length st.trades ≡ st.trades_completed
  pub pending_events : length st.pending_events ≡ st.trades_completed
  pub equity : length st.equity_curve ≡ st.trades_completed + 1
  pub ambiguous_events :
      length st.ambiguous_events ≡ st.entry_ambiguity_count + st.exit_ambiguity_count

pub length-snoc : {A : Type 0} (xs : List A) (x : A) → length (xs ++ (x ∷ [])) ≡ length xs + 1
length-snoc xs x = omega (arith, length-append {0} xs (x ∷ []))

module _ (n : ℕ) (st : RunState) (h : IsCounted n st) where
  entered-IsCounted :
      (a : ActiveSignal) (f : Fill)
      → st.active ≡ some a
      → a.fill ≡ none
      → IsCounted n (entered a st f)
  entered-IsCounted a f e w = ground arith

  ambiguity-IsCounted :
      (a : ActiveSignal) (t : Timestamp)
      → st.active ≡ some a
      → IsCounted n (note_entry_ambiguity (note_ambiguity a t entry st))
        × IsCounted n (note_exit_ambiguity (note_ambiguity a t exit st))
  ambiguity-IsCounted a t e =
      let more = λ (k : AmbiguityKind). length-snoc st.ambiguous_events (record {
        signal_candle_ts = a.signal_candle_ts;
        minute_ts = t;
        kind = k;
        direction = a.direction;
      }) in
      (ground (arith, more entry), ground (arith, more exit))

  closed-IsCounted :
      (a : ActiveSignal) (f : Fill) (x : Exit)
      → st.active ≡ some a
      → a.fill ≡ some f
      → IsCounted n (closed a f st x)
  closed-IsCounted a f x e w =
      let done : ActiveSignal = record a { exit = some x } in
      ground (
        arith,
        length-snoc st.equity_curve (Decimal.add st.balance x.net_pnl),
        length-snoc st.trades (finalize_trade done f),
        length-snoc st.pending_events (pending_event done),
      )

  pub Minute-IsCounted :
      (config : BacktestConfig) (c : Candle) (s : RunState) → Minute config c st s → IsCounted n s
  Minute-IsCounted config c s same = h
  Minute-IsCounted config c s (entering a f e w due filled) = entered-IsCounted a f e w
  Minute-IsCounted config c s (unclear_entry a e w) =
      (ambiguity-IsCounted a (Candle.timestamp c) e).0
  Minute-IsCounted config c s (unclear_exit a f e w) =
      (ambiguity-IsCounted a (Candle.timestamp c) e).1
  Minute-IsCounted config c s (closing a f x o e w t k) = closed-IsCounted a f x e w

  blocked-IsCounted :
      (ts time : Timestamp) (why : BlockReason) (d : Option Direction) (at : Option Timestamp)
      → IsCounted (n + 1) (blocked ts time why d at st)
  blocked-IsCounted ts time why d at = ground (
    arith,
    length-snoc st.blocked_events (record {
      candle_ts = ts;
      decision_time = time;
      reason = why;
      active_direction = d;
      active_signal_candle_ts = at;
    }),
  )

  module _ (e : Engine) (c : Candle) where
    one_more : (a : SignalAnalysis) → length (recorded e c a st).decisions ≡ length st.decisions + 1
    one_more a = length-snoc st.decisions (record {
      candle_ts = Candle.timestamp c;
      decision = a.decision;
      confidence = a.confidence;
      candle_close_price = a.candle_close_price;
      provider = e.provider;
      model = e.model;
    })

    one_refused :
        (a : SignalAnalysis)
        → length (rejected c a st).rejected_events ≡ length st.rejected_events + 1
    one_refused a =
        length-snoc st.rejected_events
          (record { candle_ts = Candle.timestamp c; decision = a.decision })

    pub Decision-IsCounted :
        (time : Timestamp) (s : RunState) → Decision e c time st s → IsCounted (n + 1) s
    Decision-IsCounted time s (skipped why d at) =
        blocked-IsCounted (Candle.timestamp c) time why d at
    Decision-IsCounted time s (waited a free) = ground (arith, one_more a)
    Decision-IsCounted time s (refused_long a free) = ground (arith, one_more a, one_refused a)
    Decision-IsCounted time s (refused_short a free) = ground (arith, one_more a, one_refused a)
    Decision-IsCounted time s (went_long a k free v) = ground (arith, one_more a)
    Decision-IsCounted time s (went_short a k free v) = ground (arith, one_more a)
