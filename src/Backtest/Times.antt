-- ===== src/Backtest/Times.antt =====
-- The times of the trades that `run` of backtest/engine.py returns.
use tool_trade.Common.{
  ℕ, ◌+◌, ◌≡◌, refl, sym, subst, ◌∙◌, Option, none, some, List, [], ◌∷◌, ◌++◌, arith, All,
  All-append,
}
use tool_trade.Market.Klines.{Candle}
use tool_trade.Models.{Timestamp}
use tool_trade.Result.{ok, Ensures, Ensures-map, Ensures-eq_ok}
use tool_trade.Market.Order.{IsAscending}
use tool_trade.Backtest.Ascending.{validate_historical_data-IsAscending}
use tool_trade.Backtest.Config.{interval_to_ms}
use tool_trade.Backtest.Data.{HistoricalData, validate_historical_data}
use tool_trade.Backtest.Records.{Fill, ActiveSignal, RunState, BacktestResult}
use tool_trade.Backtest.Fills.{finalize_trade}
use tool_trade.Backtest.Minutes.{with_minutes}
use tool_trade.Backtest.Decisions.{Engine}
use tool_trade.Backtest.Steps.{
  Decision, skipped, waited, refused_long, refused_short, went_long, went_short, Decision-minutes,
}
use tool_trade.Backtest.Replay.{summary, final_state, run}
use tool_trade.Backtest.Invariant.{run-keeps, with_period}
use tool_trade.Backtest.Moments.{IsDecided, IsTimed, IsOnTime, Minute-IsOnTime}

module _ (period : ℕ) (cs : List Candle) (st : RunState) (h : IsOnTime period cs st) where
  kept-IsOnTime :
      (s : RunState) → s.active ≡ st.active → s.trades ≡ st.trades → IsOnTime period cs s
  kept-IsOnTime s e t = record {
    ascending = h.ascending;
    decided = λ a k. h.decided a (sym e ∙ k);
    filled = λ a f k. h.filled a f (sym e ∙ k);
    trades = rw t h.trades;
  }

  started-IsOnTime :
      (s : RunState) (a : ActiveSignal)
      → s.active ≡ some a
      → IsDecided period a
      → a.fill ≡ none
      → a.exit ≡ none
      → s.trades ≡ st.trades
      → IsOnTime period cs s
  started-IsOnTime s a e at w x t = record {
    ascending = h.ascending;
    decided = λ b k.
        let is : a ≡ b = cc in
        subst (λ (z : ActiveSignal). IsDecided period z × (z.exit ≡ none)) is (at, x);
    filled = λ b f k l.
        let is : a ≡ b = cc in
        let filled : b.fill ≡ none = subst (λ (z : ActiveSignal). z.fill ≡ none) is w in cc;
    trades = rw t h.trades;
  }

  Decision-IsOnTime :
      (e : Engine) (c : Candle) (time : Timestamp) (s : RunState)
      → time ≡ Candle.timestamp c + period
      → Decision e c time st s
      → IsOnTime period cs s
  Decision-IsOnTime e c time s at (skipped why d when) = kept-IsOnTime _ refl refl
  Decision-IsOnTime e c time s at (waited a free) = kept-IsOnTime _ refl refl
  Decision-IsOnTime e c time s at (refused_long a free) = kept-IsOnTime _ refl refl
  Decision-IsOnTime e c time s at (refused_short a free) = kept-IsOnTime _ refl refl
  Decision-IsOnTime e c time s at (went_long a k free v) =
      started-IsOnTime _ _ refl at refl refl refl
  Decision-IsOnTime e c time s at (went_short a k free v) =
      started-IsOnTime _ _ refl at refl refl refl

  last_trade-IsTimed :
      (a : ActiveSignal) (f : Fill)
      → st.active ≡ some a
      → a.fill ≡ some f
      → IsTimed period (finalize_trade a f)
  unfolding finalize_trade
  last_trade-IsTimed a f e w =
      let (due, _) = h.filled a f e w in let (at, x) = h.decided a e in (omega arith, λ y m. cc)

  final-IsTimed :
      (active : Option ActiveSignal)
      → st.active ≡ active
      → All (IsTimed period) (final_state st active).trades
  final-IsTimed none e = h.trades
  final-IsTimed (some a) e = of_fill a.fill refl
    where
      of_fill :
          (f : Option Fill)
          → a.fill ≡ f
          → All
              (IsTimed period)
              (elim f [ none ↦ st.trades | some x ↦ st.trades ++ (finalize_trade a x ∷ []) ])
      of_fill none w = h.trades
      of_fill (some f) w =
          All-append (IsTimed period) st.trades _ h.trades (last_trade-IsTimed a f e w, tt)

-- On data that passes its validation, each trade of a returned result is entered no earlier than the
-- close of the candle that its signal was decided on, and an exit comes after the entry.
pub run-IsTimed :
    (e : Engine) (d : HistoricalData)
    → validate_historical_data d ≡ ok tt
    → Ensures
        (λ r.
          (period : ℕ) × (interval_to_ms e.config.timeframe ≡ ok period)
          × All (IsTimed period) r.state.trades)
        (run e d)
unfolding summary
run-IsTimed e d valid =
    let Q = λ (r : BacktestResult).
      (period : ℕ) × (interval_to_ms e.config.timeframe ≡ ok period)
      × All (IsTimed period) r.state.trades in
    with_period e d Q λ period known.
      Ensures-map _ Q (run e d)
        (λ r (st, is_summary, h).
          rw is_summary (period, known, final-IsTimed period st.minutes st h st.active refl))
        (run-keeps e period (λ n cs st. IsOnTime period cs st)
          (λ n c cs st s h m. Minute-IsOnTime period c cs st h e.config s m)
          (λ n cs st h. kept-IsOnTime period cs st h (with_minutes cs st) refl refl)
          (λ n c time st s at h m.
            subst (λ cs. IsOnTime period cs s) (sym (Decision-minutes e c time st s m))
              (Decision-IsOnTime period st.minutes st h e c time s at m))
          d known
          (record {
            ascending =
                Ensures-eq_ok (λ _. IsAscending d.minute_candles) (validate_historical_data d) tt
                  (validate_historical_data-IsAscending d) valid;
            decided = λ a k. cc;
            filled = λ a f k. cc;
            trades = tt;
          }))
