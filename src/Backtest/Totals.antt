-- ===== src/Backtest/Totals.antt =====
-- The totals that `run` of backtest/engine.py returns.
use tool_trade.Common.{
  ◌+◌, ◌-◌, ◌≤◌, ◌≡◌, refl, true, false, Option, none, some, List, [], ◌∷◌, ◌++◌, arith, length,
}
use tool_trade.Result.{Ensures, Ensures-map}
use tool_trade.Backtest.Config.{BacktestConfig}
use tool_trade.Backtest.Data.{HistoricalData}
use tool_trade.Backtest.Records.{Fill, ActiveSignal, PendingEvent, RunState, BacktestResult}
use tool_trade.Backtest.Fills.{pending_event, finalize_trade}
use tool_trade.Backtest.Decisions.{Engine}
use tool_trade.Backtest.Replay.{
  is_open, is_pending, initial_state, summary, summary_of, final_state, count_events, run,
}
use tool_trade.Backtest.Invariant.{run-keeps, with_period}
use tool_trade.Backtest.Counts.{IsCounted, length-snoc, Minute-IsCounted, Decision-IsCounted}

-- The counts that `run` returns.
pub record IsTallied (d : HistoricalData) (config : BacktestConfig) (r : BacktestResult)
    : Type 0 where
  pub eligible : r.eligible ≡ length d.hour_candles - (config.min_candles - 1)
  pub candles : r.eligible ≡ r.state.analyzed + r.state.blocked_count
  pub decided :
      r.state.analyzed ≡ r.state.wait_count + r.state.long_decisions + r.state.short_decisions
  pub directed :
      r.state.long_decisions + r.state.short_decisions
      ≡ r.state.created_counter + r.state.rejected_count
  pub resolved :
      r.state.created_counter ≡ r.state.trades_completed + r.open_at_end + r.pending_at_end
  pub entered : r.state.entries_hit ≡ r.state.trades_completed + r.open_at_end
  pub at_end : r.open_at_end + r.pending_at_end ≤ 1
  pub sides : r.long_created + r.short_created ≡ r.state.created_counter
  pub events : length r.state.pending_events ≡ r.state.created_counter
  pub trades : length r.state.trades ≡ r.state.entries_hit
  pub decisions : length r.state.decisions ≡ r.state.analyzed
  pub blocked_events : length r.state.blocked_events ≡ r.state.blocked_count
  pub rejected_events : length r.state.rejected_events ≡ r.state.rejected_count
  pub equity : length r.state.equity_curve ≡ r.state.trades_completed + 1
  pub ambiguous_events : length r.state.ambiguous_events ≡ r.ambiguous_total

sides-length : (ps : List PendingEvent) → count_events true ps + count_events false ps ≡ length ps
sides-length [] = refl
sides-length (p ∷ ps) = ground (arith, sides-length ps)

trades_at_end :
    (st : RunState) (a : ActiveSignal)
    → length (final_state st (some a)).trades ≡ length st.trades + is_open (some a)
trades_at_end st a = filled a.fill
  where
    filled :
        (f : Option Fill)
        → length (elim f [ none ↦ st.trades | some x ↦ st.trades ++ (finalize_trade a x ∷ []) ])
          ≡ length st.trades + (elim f [ none ↦ 0 | some x ↦ 1 ])
    filled none = omega arith
    filled (some x) = length-snoc st.trades (finalize_trade a x)

one_state : (a : ActiveSignal) → is_open (some a) + is_pending (some a) ≡ 1
one_state a = ground arith

summary-IsTallied :
    (d : HistoricalData) (config : BacktestConfig) (st : RunState) (active : Option ActiveSignal)
    → st.active ≡ active
    → IsCounted (length d.hour_candles - (config.min_candles - 1)) st
    → IsTallied d config (summary_of (length d.hour_candles - (config.min_candles - 1)) st active)
summary-IsTallied d config st none e h = ground (arith, sides-length st.pending_events)
summary-IsTallied d config st (some a) e h =
    let last = pending_event a in
    ground (
      arith,
      sides-length (st.pending_events ++ (last ∷ [])),
      length-snoc st.pending_events last,
      trades_at_end st a,
      one_state a,
    )

initial-IsCounted :
    (config : BacktestConfig) (d : HistoricalData) → IsCounted 0 (initial_state config d)
initial-IsCounted config d = ground arith

-- The totals of a returned result add up: each eligible candle was analysed or blocked, each analysis is a
-- WAIT, a LONG or a SHORT, each LONG or SHORT was rejected or became a signal, and each signal was
-- traded to its exit or is the one that is open or pending at the end; the lists of trades, events,
-- decisions and equity points are as long as the counters say.
pub run-IsTallied : (e : Engine) (d : HistoricalData) → Ensures (IsTallied d e.config) (run e d)
unfolding summary
run-IsTallied e d = with_period e d (IsTallied d e.config) λ period known.
    Ensures-map _ (IsTallied d e.config) (run e d)
      (λ r (st, is_summary, h). rw is_summary (summary-IsTallied d e.config st st.active refl h))
      (run-keeps e period (λ n cs st. IsCounted n st)
        (λ n c cs st s h m. Minute-IsCounted n st h e.config c s m) (λ n cs st h. ground arith)
        (λ n c time st s at h m. Decision-IsCounted n st h e c time s m) d known
        (initial-IsCounted e.config d))
