-- ===== src/Backtest/Completed.antt =====
-- The trades that `_completed` of backtest/metrics.py takes from a run.
use tool_trade.Common.{
  ◌+◌, ◌≡◌, refl, true, false, Option, none, some, List, [], ◌∷◌, ◌++◌, arith, length,
}
use tool_trade.Decimal
use tool_trade.Decimal.{Decimal}
use tool_trade.Market.Klines.{Candle}
use tool_trade.Models.{Timestamp, number}
use tool_trade.Result.{Ensures, Ensures-bind, Ensures-eq_ok}
use tool_trade.Demo.Account.{gross_pnl, exit_fee}
use tool_trade.Monitor.Candles.{MonitorOutcome, tp_hit}
use tool_trade.Backtest.Config.{BacktestConfig}
use tool_trade.Backtest.Records.{Fill, Exit, ActiveSignal, BacktestTrade, RunState}
use tool_trade.Backtest.Fills.{
  fill_factor, close_exit, close_reason, exit_level, funding_cost, r_multiple, finalize_trade,
}
use tool_trade.Backtest.Minutes.{closed}
use tool_trade.Backtest.Decisions.{Engine}
use tool_trade.Backtest.Steps.{
  Minute, same, entering, unclear_entry, unclear_exit, closing, Decision, skipped, waited,
  refused_long, refused_short, went_long, went_short,
}
use tool_trade.Backtest.Replay.{final_state}
use tool_trade.Backtest.Metrics.{is_exit, completed}

-- The trades that were closed are the completed ones, and the active signal has no exit yet.
pub record AreCompleted (st : RunState) : Type 0 where
  pub closed_trades : length (completed st.trades) ≡ st.trades_completed
  pub unclosed : (a : ActiveSignal) → st.active ≡ some a → a.exit ≡ none

completed-snoc :
    (ts : List BacktestTrade) (t : BacktestTrade)
    → length (completed (ts ++ (t ∷ []))) ≡ length (completed ts) + length (completed (t ∷ []))
completed-snoc [] t = omega arith
completed-snoc (u ∷ ts) t = ground (arith, completed-snoc ts t)

close_exit-outcome :
    (config : BacktestConfig) (a : ActiveSignal) (f : Fill) (o : MonitorOutcome) (t : Timestamp)
    → Ensures (λ x. is_exit x.outcome ≡ true) (close_exit config a f o t)
unfolding close_exit
close_exit-outcome config a f o t =
    let P : Exit → Type 0 = λ x. is_exit x.outcome ≡ true in
    Ensures-bind P (fill_factor config.slippage_bps a.direction false) _ λ factor _.
      let at = Decimal.mul (exit_level o a) factor in
      Ensures-bind P (gross_pnl a.direction (number f.entry_price) (number at) (number f.quantity))
        _
        λ gross _.
          Ensures-bind P (exit_fee (number at) (number f.quantity) (number config.fee_rate)) _
            λ fee _.
              Ensures-bind P
                (r_multiple
                  (Decimal.sub (Decimal.sub (Decimal.sub gross f.entry_fee) fee)
                    (funding_cost config f t))
                  f.risk_amount)
                _ λ r _. reason-is_exit o
  where
    reason-is_exit : (o : MonitorOutcome) → is_exit (close_reason o) ≡ true
    reason-is_exit tp_hit = refl
    reason-is_exit _ = refl

open_trade :
    (a : ActiveSignal) (f : Fill) → a.exit ≡ none → length (completed (finalize_trade a f ∷ [])) ≡ 0
unfolding finalize_trade
open_trade a f x = rw x refl

module _ (st : RunState) (h : AreCompleted st) where
  closed-AreCompleted :
      (a : ActiveSignal) (f : Fill) (x : Exit)
      → is_exit x.outcome ≡ true
      → AreCompleted (closed a f st x)
  unfolding finalize_trade
  closed-AreCompleted a f x e =
      let t = finalize_trade (record a { exit = some x }) f in
      let one : length (completed (t ∷ [])) ≡ 1 = rw e refl in
      record {
        closed_trades = omega (arith, completed-snoc st.trades t, one, h.closed_trades);
        unclosed = λ b k. cc;
      }

  pub Minute-AreCompleted :
      (config : BacktestConfig) (c : Candle) (s : RunState) → Minute config c st s → AreCompleted s
  Minute-AreCompleted config c s same = h
  Minute-AreCompleted config c s (entering a f e w due filled) = record {
    closed_trades = h.closed_trades;
    unclosed = λ b k. let kept = h.unclosed a e in ground arith;
  }
  Minute-AreCompleted config c s (unclear_entry a e w) = record {
    closed_trades = h.closed_trades;
    unclosed = λ b k. let kept = h.unclosed a e in ground arith;
  }
  Minute-AreCompleted config c s (unclear_exit a f e w) = record {
    closed_trades = h.closed_trades;
    unclosed = λ b k. let kept = h.unclosed a e in ground arith;
  }
  Minute-AreCompleted config c s (closing a f x o e w t k) = closed-AreCompleted a f x (
      Ensures-eq_ok (λ (y : Exit). is_exit y.outcome ≡ true) _ x
        (close_exit-outcome config a f o (Candle.timestamp c)) k)

  pub Decision-AreCompleted :
      (e : Engine) (c : Candle) (time : Timestamp) (s : RunState)
      → Decision e c time st s
      → AreCompleted s
  Decision-AreCompleted e c time s (skipped why d at) = record {
    closed_trades = h.closed_trades;
    unclosed = h.unclosed;
  }
  Decision-AreCompleted e c time s (waited a free) = record {
    closed_trades = h.closed_trades;
    unclosed = h.unclosed;
  }
  Decision-AreCompleted e c time s (refused_long a free) = record {
    closed_trades = h.closed_trades;
    unclosed = h.unclosed;
  }
  Decision-AreCompleted e c time s (refused_short a free) = record {
    closed_trades = h.closed_trades;
    unclosed = h.unclosed;
  }
  Decision-AreCompleted e c time s (went_long a k free v) = record {
    closed_trades = h.closed_trades;
    unclosed = λ b w. ground arith;
  }
  Decision-AreCompleted e c time s (went_short a k free v) = record {
    closed_trades = h.closed_trades;
    unclosed = λ b w. ground arith;
  }

  pub final_completed :
      (active : Option ActiveSignal)
      → st.active ≡ active
      → length (completed (final_state st active).trades) ≡ (final_state st active).trades_completed
  final_completed none e = h.closed_trades
  final_completed (some a) e = of_fill a.fill
    where
      of_fill :
          (f : Option Fill)
          → length (
              completed
                (elim f [ none ↦ st.trades | some x ↦ st.trades ++ (finalize_trade a x ∷ []) ]))
            ≡ st.trades_completed
      of_fill none = h.closed_trades
      of_fill (some f) = omega (
        arith,
        completed-snoc st.trades (finalize_trade a f),
        open_trade a f (h.unclosed a e),
        h.closed_trades,
      )
