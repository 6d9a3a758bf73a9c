-- ===== src/Backtest/Scores.antt =====
-- The counts of wins and losses of `compute`, backtest/metrics.py.
use tool_trade.Common.{
  ℕ, ◌+◌, ◌≤◌, ◌≡◌, refl, subst, inl, inr, List, [], ◌∷◌, arith, Bool-cases, length,
}
use tool_trade.Decimal
use tool_trade.Decimal.{Decimal}
use tool_trade.Result.{Ensures, Ensures-always, Ensures-bind, Ensures-map, Ensures-eq_ok}
use tool_trade.Backtest.Config.{BacktestConfig}
use tool_trade.Backtest.Data.{HistoricalData}
use tool_trade.Backtest.Records.{Exit, BacktestTrade, BacktestResult}
use tool_trade.Backtest.Decisions.{Engine}
use tool_trade.Backtest.Replay.{is_long, summary, run}
use tool_trade.Backtest.Invariant.{run-keeps, with_period}
use tool_trade.Backtest.Metrics.{
  Tally, empty_tally, nothing, completed, level_pnl, counted, count_trades, percent,
}
use tool_trade.Backtest.Statistics.{
  Drawdown, curve_drawdown, BacktestStatistics, average, factor, compute,
}
use tool_trade.Backtest.Completed.{
  AreCompleted, Minute-AreCompleted, Decision-AreCompleted, final_completed,
}

-- The counts of a tally after that many trades.
pub record IsScored (n : ℕ) (t : Tally) : Type 0 where
  pub results : t.wins + t.losses ≡ n
  pub sides : t.long_trades + t.short_trades ≡ n
  pub wins : t.long_wins + t.short_wins ≡ t.wins
  pub losses : t.long_losses + t.short_losses ≡ t.losses
  pub longs : t.long_wins + t.long_losses ≡ t.long_trades
  pub shorts : t.short_wins + t.short_losses ≡ t.short_trades
  pub winning : (t.consecutive_wins ≤ t.best_streak) × (t.best_streak ≤ t.wins)
  pub losing : (t.consecutive_losses ≤ t.worst_streak) × (t.worst_streak ≤ t.losses)

counted-IsScored :
    (n : ℕ) (t : BacktestTrade) (x : Exit) (level_gross : Decimal) (tally : Tally)
    → IsScored n tally
    → IsScored (n + 1) (counted t x level_gross tally)
counted-IsScored n t x level_gross tally h = elim (Bool-cases (is_long t.signal.direction)) [
  | inl side ↦ elim (Bool-cases (Decimal.lt nothing x.net_pnl)) [
    | inl won ↦ rw (side, won) (ground arith)
    | inr lost ↦ rw (side, lost) (ground arith)
  ]
  | inr side ↦ elim (Bool-cases (Decimal.lt nothing x.net_pnl)) [
    | inl won ↦ rw (side, won) (ground arith)
    | inr lost ↦ rw (side, lost) (ground arith)
  ]
]

count_trades-IsScored :
    (n : ℕ) (ts : List (BacktestTrade × Exit)) (tally : Tally)
    → IsScored n tally
    → Ensures (IsScored (n + length ts)) (count_trades ts tally)
unfolding count_trades
count_trades-IsScored n [] tally h = let same : n + 0 ≡ n = omega arith in rw same h
count_trades-IsScored n ((t, x) ∷ ts) tally h =
    let same : n + length ((t, x) ∷ ts) ≡ (n + 1) + length ts = omega arith in
    rw same (
      Ensures-bind (IsScored ((n + 1) + length ts)) (level_pnl t x) _ λ level_gross _.
        count_trades-IsScored (n + 1) ts (counted t x level_gross tally)
          (counted-IsScored n t x level_gross tally h))

-- What holds of the tally and of the drawdown holds of the statistics.
pub compute-Ensures :
    (P : Tally → Type 0) (Q : Drawdown → Type 0) (config : BacktestConfig) (r : BacktestResult)
    → Ensures P (count_trades (completed r.state.trades) empty_tally)
    → Ensures Q (curve_drawdown r.state.equity_curve)
    → Ensures (λ s. P s.tally × Q s.drawdown) (compute config r)
unfolding compute
compute-Ensures P Q config r scored drawn =
    let R = λ (s : BacktestStatistics). P s.tally × Q s.drawdown in
    let n = length (completed r.state.trades) in
    Ensures-bind R (count_trades (completed r.state.trades) empty_tally) _ λ t is_tally.
      Ensures-bind R (average (Decimal.sum t.r_values nothing) n) _ λ _ _.
        Ensures-bind R (average t.net_sum n) _ λ _ _.
          Ensures-bind R (average t.gross_profit t.wins) _ λ _ _.
            Ensures-bind R (average t.gross_loss t.losses) _ λ _ _.
              Ensures-bind R (factor t.gross_profit t.gross_loss) _ λ _ _.
                Ensures-bind R (percent (Decimal.of_ℕ t.wins) (Decimal.of_ℕ n)) _ λ _ _.
                  Ensures-bind R (percent (Decimal.of_ℕ t.long_wins) (Decimal.of_ℕ t.long_trades)) _
                    λ _ _.
                      Ensures-bind R
                        (percent (Decimal.of_ℕ t.short_wins) (Decimal.of_ℕ t.short_trades)) _
                        λ _ _.
                          Ensures-bind R (curve_drawdown r.state.equity_curve) _ λ d is_drawdown.
                            Ensures-bind R (percent d.max_dd d.max_dd_peak) _ λ _ _.
                              Ensures-bind R
                                (percent (Decimal.sub r.state.balance config.initial_balance)
                                  config.initial_balance)
                                _
                                λ _ _. (
                                  Ensures-eq_ok P _ t scored is_tally,
                                  Ensures-eq_ok Q _ d drawn is_drawdown,
                                )

statistics-IsScored :
    (config : BacktestConfig) (r : BacktestResult)
    → length (completed r.state.trades) ≡ r.state.trades_completed
    → Ensures (λ s. IsScored r.state.trades_completed s.tally) (compute config r)
statistics-IsScored config r h =
    let n = 0 + length (completed r.state.trades) in
    let same : n ≡ r.state.trades_completed = omega (arith, h) in
    let start : IsScored 0 empty_tally = ground arith in
    Ensures-map (λ (s : BacktestStatistics). IsScored n s.tally × Unit {0})
      (λ (s : BacktestStatistics). IsScored r.state.trades_completed s.tally) (compute config r)
      (λ s (scored, _). subst (λ k. IsScored k s.tally) same scored)
      (compute-Ensures (IsScored n) (λ _. Unit {0}) config r
        (count_trades-IsScored 0 (completed r.state.trades) empty_tally start)
        (Ensures-always (λ _. Unit {0}) (curve_drawdown r.state.equity_curve) λ _. tt))

-- The statistics of a returned backtest, where they are computed, count each of its closed trades once as a
-- win or a loss and once as a LONG or a SHORT, and no streak is longer than the wins, or the losses.
pub run-IsScored :
    (e : Engine) (d : HistoricalData)
    → Ensures
        (λ r. Ensures (λ s. IsScored r.state.trades_completed s.tally) (compute e.config r))
        (run e d)
unfolding summary
run-IsScored e d =
    let Q = λ (r : BacktestResult).
      Ensures (λ s. IsScored r.state.trades_completed s.tally) (compute e.config r) in
    with_period e d Q λ period known.
      Ensures-map _ Q (run e d)
        (λ r (st, is_summary, h).
          rw is_summary (statistics-IsScored e.config _ (final_completed st h st.active refl)))
        (run-keeps e period (λ n cs st. AreCompleted st)
          (λ n c cs st s h m. Minute-AreCompleted st h e.config c s m)
          (λ n cs st h. record { closed_trades = h.closed_trades; unclosed = h.unclosed })
          (λ n c time st s at h m. Decision-AreCompleted st h e c time s m) d known
          (record { closed_trades = refl; unclosed = λ a k. cc }))
