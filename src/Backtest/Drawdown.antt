-- ===== src/Backtest/Drawdown.antt =====
-- The drawdown of `compute`, backtest/metrics.py, and the drawdowns point by point.
use tool_trade.Common.{◌≡◌, refl, subst, true, inl, inr, ◌⊎◌, List, [], ◌∷◌, arith, Bool-cases, All}
use tool_trade.Decimal
use tool_trade.Decimal.{Decimal}
use tool_trade.Decimal.Order.{le_refl_lem, le_total, le_trans}
use tool_trade.Result.{Ensures, Ensures-always, Ensures-map}
use tool_trade.Backtest.Data.{HistoricalData}
use tool_trade.Backtest.Records.{BacktestResult}
use tool_trade.Backtest.Decisions.{Engine}
use tool_trade.Backtest.Replay.{run}
use tool_trade.Backtest.Equity.{nets, curve, IsBalanced, run-IsBalanced}
use tool_trade.Backtest.Scores.{compute-Ensures}
use tool_trade.Backtest.Metrics.{nothing}
use tool_trade.Backtest.Statistics.{
  Drawdown, larger_value, with_drawdown, at_point, walk, at_start, curve_drawdown,
  BacktestStatistics, compute,
}

-- The drawdown at each point: how far it is below the highest point so far.
abbrev pub drawdowns : Decimal → List Decimal → List Decimal
drawdowns peak [] = []
drawdowns peak (point ∷ rest) =
    let high = larger_value peak point in Decimal.sub high point ∷ drawdowns high rest

-- The peak is no smaller than any point, and the drawdown is no smaller than that at any point.
pub record IsDeepest (start depth : Decimal) (points : List Decimal) (d : Drawdown) : Type 0 where
  pub above : Decimal.le start d.peak ≡ true
  pub highest : All (λ p. Decimal.le p d.peak ≡ true) points
  pub deeper : Decimal.le depth d.max_dd ≡ true
  pub deepest : All (λ x. Decimal.le x d.max_dd ≡ true) (drawdowns start points)

larger_value-le :
    (a b : Decimal)
    → (Decimal.le a (larger_value a b) ≡ true) × (Decimal.le b (larger_value a b) ≡ true)
larger_value-le a b = elim (Bool-cases (Decimal.lt a b)) [
  | inl e ↦ let total = le_total a b in rw e (ground (arith, total), le_refl_lem b)
  | inr e ↦ rw e (le_refl_lem a, ground arith)
]

with_drawdown-le :
    (peak x : Decimal) (d : Drawdown)
    → ((with_drawdown peak x d).peak ≡ peak)
      × (Decimal.le d.max_dd (with_drawdown peak x d).max_dd ≡ true)
      × (Decimal.le x (with_drawdown peak x d).max_dd ≡ true)
with_drawdown-le peak x d = elim (Bool-cases (Decimal.lt d.max_dd x)) [
  | inl e ↦ let total = le_total d.max_dd x in rw e (refl, ground (arith, total), le_refl_lem x)
  | inr e ↦ rw e (refl, le_refl_lem d.max_dd, ground arith)
]

walk-IsDeepest :
    (points : List Decimal) (d : Drawdown) → IsDeepest d.peak d.max_dd points (walk d points)
unfolding walk
walk-IsDeepest [] d = record {
  above = le_refl_lem d.peak;
  highest = tt;
  deeper = le_refl_lem d.max_dd;
  deepest = tt;
}
walk-IsDeepest (p ∷ rest) d =
    let high = larger_value d.peak p in
    let next = at_point d p in
    let done = walk next rest in
    let ih : IsDeepest high next.max_dd rest done =
      subst (λ h. IsDeepest h next.max_dd rest done)
        (with_drawdown-le high (Decimal.sub high p) d).0 (walk-IsDeepest rest next) in
    let (up, over) = larger_value-le d.peak p in
    let (_, kept, covered) = with_drawdown-le high (Decimal.sub high p) d in
    record {
      above = le_trans d.peak high done.peak up ih.above;
      highest = (le_trans p high done.peak over ih.above, ih.highest);
      deeper = le_trans d.max_dd next.max_dd done.max_dd kept ih.deeper;
      deepest =
          (le_trans (Decimal.sub high p) next.max_dd done.max_dd covered ih.deeper, ih.deepest);
    }

-- The first value is the second or one of the list.
abbrev pub IsOneOf : Decimal → Decimal → List Decimal → Type 0
IsOneOf x other [] = x ≡ other
IsOneOf x other (d ∷ ds) = (x ≡ d) ⊎ IsOneOf x other ds

with_drawdown-cases :
    (peak x : Decimal) (d : Drawdown)
    → ((with_drawdown peak x d).max_dd ≡ x) ⊎ ((with_drawdown peak x d).max_dd ≡ d.max_dd)
with_drawdown-cases peak x d = elim (Bool-cases (Decimal.lt d.max_dd x)) [
  | inl e ↦ rw e (inl refl)
  | inr e ↦ rw e (inr refl)
]

replaced : (x a b : Decimal) (ds : List Decimal) → IsOneOf x a ds → (x ≡ a) ⊎ IsOneOf x b ds
replaced x a b [] e = inl e
replaced x a b (d ∷ ds) (inl e) = inr (inl e)
replaced x a b (d ∷ ds) (inr h) = elim (replaced x a b ds h) [ inl e ↦ inl e | inr k ↦ inr (inr k) ]

walk-IsOneOf :
    (points : List Decimal) (d : Drawdown)
    → IsOneOf (walk d points).max_dd d.max_dd (drawdowns d.peak points)
unfolding walk
walk-IsOneOf [] d = refl
walk-IsOneOf (p ∷ rest) d =
    let high = larger_value d.peak p in
    let x = Decimal.sub high p in
    let next = at_point d p in
    let found = (walk next rest).max_dd in
    let ih : IsOneOf found next.max_dd (drawdowns high rest) =
      subst (λ h. IsOneOf found next.max_dd (drawdowns h rest)) (with_drawdown-le high x d).0
        (walk-IsOneOf rest next) in
    elim (with_drawdown-cases high x d) [
      | inl e ↦
          replaced found x d.max_dd (drawdowns high rest)
            (subst (λ y. IsOneOf found y (drawdowns high rest)) e ih)
      | inr e ↦ inr (subst (λ y. IsOneOf found y (drawdowns high rest)) e ih)
    ]

-- The drawdown of a curve from that start.
abbrev pub IsDrawdown : Decimal → List Decimal → Drawdown → Type 0
IsDrawdown start points d =
    IsDeepest start nothing points d × IsOneOf d.max_dd nothing (drawdowns start points)

curve_drawdown-IsDrawdown :
    (start : Decimal) (ns : List Decimal)
    → Ensures (IsDrawdown start (curve start ns)) (curve_drawdown (curve start ns))
unfolding curve_drawdown
curve_drawdown-IsDrawdown start [] =
    (walk-IsDeepest (start ∷ []) (at_start start), walk-IsOneOf (start ∷ []) (at_start start))
curve_drawdown-IsDrawdown start (n ∷ ns) =
    let points = curve start (n ∷ ns) in
    (walk-IsDeepest points (at_start start), walk-IsOneOf points (at_start start))

-- Of a returned backtest the statistics, where they are computed, have a peak that is no smaller than any
-- point of the equity curve, and a drawdown that is no smaller than that at any point, below the highest
-- one so far, and is zero or the one at some point.
pub run-IsDrawdown :
    (e : Engine) (d : HistoricalData)
    → Ensures
        (λ r.
          Ensures
            (λ s. IsDrawdown e.config.initial_balance r.state.equity_curve s.drawdown)
            (compute e.config r))
        (run e d)
run-IsDrawdown e d =
    let start = e.config.initial_balance in
    Ensures-map (λ (r : BacktestResult). IsBalanced start r.state) _ (run e d)
      (λ r (points, _).
        Ensures-map
          (λ (s : BacktestStatistics). Unit {0} × IsDrawdown start r.state.equity_curve s.drawdown)
          (λ (s : BacktestStatistics). IsDrawdown start r.state.equity_curve s.drawdown)
          (compute e.config r) (λ s (_, h). h)
          (compute-Ensures (λ _. Unit {0}) (IsDrawdown start r.state.equity_curve) e.config r
            (Ensures-always (λ _. Unit {0}) _ λ _. tt)
            (rw points (curve_drawdown-IsDrawdown start (nets r.state.trades)))))
      (run-IsBalanced e d)
