-- ===== src/Backtest/Computed.antt =====
-- The exceptions of `compute`, backtest/metrics.py, on the result of a run.
use tool_trade.Common.{
  ℕ, ◌≡◌, refl, true, false, inl, inr, Option, none, some, List, [], ◌∷◌, arith, Bool-cases, ◌==◌,
  if◌then◌else◌, length, All,
}
use tool_trade.Decimal
use tool_trade.Decimal.{Decimal}
use tool_trade.Decimal.Quotient.{div-some}
use tool_trade.Models.{Direction, long, short, is_direction, CloseReason, tp}
use tool_trade.Result.{Result, ok, err, ◌>>=◌, is_ok, Ensures, Ensures-map}
use tool_trade.Demo.Account.{divide}
use tool_trade.Demo.Account.Arguments.{IsAbove0}
use tool_trade.Demo.Account.Pnl.{gross_pnl-eq}
use tool_trade.Backtest.Config.{BacktestConfig}
use tool_trade.Backtest.Data.{HistoricalData}
use tool_trade.Backtest.Records.{Exit, BacktestTrade, BacktestResult}
use tool_trade.Backtest.Decisions.{Engine}
use tool_trade.Backtest.Replay.{is_long, summary, run}
use tool_trade.Backtest.Invariant.{run-keeps, with_period}
use tool_trade.Backtest.Metrics.{
  Tally, empty_tally, nothing, is_exit, completed, level_pnl, configured_exit, counted,
  count_trades, percent, ratio,
}
use tool_trade.Backtest.Statistics.{curve_drawdown, average, factor, compute}
use tool_trade.Backtest.Equity.{nets, curve, IsBalanced, run-IsBalanced}
use tool_trade.Backtest.Priced.{
  IsPriced, ArePriced, Minute-ArePriced, Decision-ArePriced, final-IsPriced,
}

is_ok-bind :
    {A B : Type 0} (m : Result A) (f : A → Result B)
    → is_ok m ≡ true
    → ((a : A) → is_ok (f a) ≡ true)
    → is_ok (m >>= f) ≡ true
is_ok-bind (ok a) f h k = k a
is_ok-bind (err e) f h k = absurd (cc (h))

divide-is_ok : (a b : Decimal) → Decimal.eq b nothing ≡ false → (q : Decimal) × (divide a b ≡ ok q)
divide-is_ok a b h = let (q, e) = div-some a b h in rw e (q, refl)

ratio-is_ok : (a b : Decimal) → is_ok (ratio a b) ≡ true
unfolding ratio
ratio-is_ok a b = elim (Bool-cases (Decimal.eq b nothing)) [
  | inl e ↦ rw e refl
  | inr e ↦ let (q, k) = divide-is_ok a b e in rw (e, k) refl
]

percent-is_ok : (a b : Decimal) → is_ok (percent a b) ≡ true
unfolding percent
percent-is_ok a b = elim (Bool-cases (Decimal.eq b nothing)) [
  | inl e ↦ rw e refl
  | inr e ↦ let (q, k) = divide-is_ok a b e in rw (e, k) refl
]

factor-is_ok : (a b : Decimal) → is_ok (factor a b) ≡ true
factor-is_ok a b = elim (Bool-cases (Decimal.lt nothing b)) [
  | inl e ↦
      let apart : Decimal.eq b nothing ≡ false = ground arith in
      let (q, k) = divide-is_ok a b apart in rw (e, k) refl
  | inr e ↦ rw e refl
]

average-is_ok : (a : Decimal) (n : ℕ) → is_ok (average a n) ≡ true
average-is_ok a n = elim (Bool-cases (n == 0)) [
  | inl e ↦ rw e refl
  | inr e ↦ rw e (ratio-is_ok a (Decimal.of_ℕ n))
]

configured_exit-pos :
    (t : BacktestTrade) (o : CloseReason)
    → IsAbove0 t.signal.stop_loss
    → IsAbove0 t.signal.take_profit
    → IsAbove0 (configured_exit o t)
configured_exit-pos t tp stop take = take
configured_exit-pos t _ stop take = stop

level_pnl-is_ok : (t : BacktestTrade) (x : Exit) → IsPriced t → is_ok (level_pnl t x) ≡ true
unfolding level_pnl
level_pnl-is_ok t x ((entry, stop, take), quantity) =
    let side : Direction = if is_long t.signal.direction then long else short in
    let known : is_direction side ≡ true = elim (Bool-cases (is_long t.signal.direction)) [
      | inl e ↦ rw e refl
      | inr e ↦ rw e refl
    ] in
    rw
      (gross_pnl-eq side t.signal.entry (configured_exit x.outcome t) t.fill.quantity known entry
        (configured_exit-pos t x.outcome stop take) quantity)
      refl

completed-IsPriced :
    (ts : List BacktestTrade)
    → All IsPriced ts
    → All (λ (p : BacktestTrade × Exit). IsPriced p.0) (completed ts)
completed-IsPriced [] h = tt
completed-IsPriced (t ∷ ts) h = of_exit t.exit (completed-IsPriced ts h.1)
  where
    of_exit :
        (x : Option Exit)
        → All (λ (p : BacktestTrade × Exit). IsPriced p.0) (completed ts)
        → All
            (λ (p : BacktestTrade × Exit). IsPriced p.0)
            (elim x [
              | none ↦ completed ts
              | some y ↦ if is_exit y.outcome then (t, y) ∷ completed ts else completed ts
            ])
    of_exit none rest = rest
    of_exit (some y) rest = elim (Bool-cases (is_exit y.outcome)) [
      | inl e ↦ rw e (h.0, rest)
      | inr e ↦ rw e rest
    ]

count_trades-is_ok :
    (ts : List (BacktestTrade × Exit)) (tally : Tally)
    → All (λ (p : BacktestTrade × Exit). IsPriced p.0) ts
    → is_ok (count_trades ts tally) ≡ true
unfolding count_trades
count_trades-is_ok [] tally h = refl
count_trades-is_ok ((t, x) ∷ ts) tally h =
    is_ok-bind (level_pnl t x) _ (level_pnl-is_ok t x h.0)
      λ level_gross. count_trades-is_ok ts (counted t x level_gross tally) h.1

curve_drawdown-is_ok :
    (b : Decimal) (ns : List Decimal) → is_ok (curve_drawdown (curve b ns)) ≡ true
unfolding curve_drawdown
curve_drawdown-is_ok b [] = refl
curve_drawdown-is_ok b (n ∷ ns) = refl

compute-is_ok :
    (config : BacktestConfig) (r : BacktestResult)
    → All IsPriced r.state.trades
    → is_ok (curve_drawdown r.state.equity_curve) ≡ true
    → is_ok (compute config r) ≡ true
unfolding compute
compute-is_ok config r priced drawn =
    let n = length (completed r.state.trades) in
    is_ok-bind (count_trades (completed r.state.trades) empty_tally) _
      (count_trades-is_ok (completed r.state.trades) empty_tally
        (completed-IsPriced r.state.trades priced))
      λ t. is_ok-bind (average (Decimal.sum t.r_values nothing) n) _ (average-is_ok _ n) λ _.
        is_ok-bind (average t.net_sum n) _ (average-is_ok _ n) λ _.
          is_ok-bind (average t.gross_profit t.wins) _ (average-is_ok _ _) λ _.
            is_ok-bind (average t.gross_loss t.losses) _ (average-is_ok _ _) λ _.
              is_ok-bind (factor t.gross_profit t.gross_loss) _ (factor-is_ok _ _) λ _.
                is_ok-bind (percent (Decimal.of_ℕ t.wins) (Decimal.of_ℕ n)) _ (percent-is_ok _ _)
                  λ _.
                    is_ok-bind (percent (Decimal.of_ℕ t.long_wins) (Decimal.of_ℕ t.long_trades)) _
                      (percent-is_ok _ _)
                      λ _.
                        is_ok-bind
                          (percent (Decimal.of_ℕ t.short_wins) (Decimal.of_ℕ t.short_trades)) _
                          (percent-is_ok _ _)
                          λ _. is_ok-bind (curve_drawdown r.state.equity_curve) _ drawn λ d.
                            is_ok-bind (percent d.max_dd d.max_dd_peak) _ (percent-is_ok _ _) λ _.
                              is_ok-bind
                                (percent (Decimal.sub r.state.balance config.initial_balance)
                                  config.initial_balance)
                                _ (percent-is_ok _ _) λ _. refl

run-IsPriced :
    (e : Engine) (d : HistoricalData) → Ensures (λ r. All IsPriced r.state.trades) (run e d)
unfolding summary
run-IsPriced e d =
    let Q = λ (r : BacktestResult). All IsPriced r.state.trades in
    with_period e d Q λ period known.
      Ensures-map _ Q (run e d)
        (λ r (st, is_summary, h). rw is_summary (final-IsPriced st h st.active refl))
        (run-keeps e period (λ n cs st. ArePriced st)
          (λ n c cs st s h m. Minute-ArePriced st h e.config c s m)
          (λ n cs st h. record { levels = h.levels; quantity = h.quantity; trades = h.trades })
          (λ n c time st s at h m. Decision-ArePriced st h e c time s m) d known
          (record { levels = λ a k. cc; quantity = λ a f k. cc; trades = tt }))

Ensures-both :
    {A : Type 0} (P Q R : A → Type 0) (r : Result A)
    → ((a : A) → P a → Q a → R a)
    → Ensures P r
    → Ensures Q r
    → Ensures R r
Ensures-both P Q R (ok a) f h k = f a h k
Ensures-both P Q R (err e) f h k = tt

-- The statistics of every returned backtest are computed: no division by zero, no missing value and no empty
-- curve stops them.
pub run-is_computed :
    (e : Engine) (d : HistoricalData) → Ensures (λ r. is_ok (compute e.config r) ≡ true) (run e d)
run-is_computed e d =
    let start = e.config.initial_balance in
    Ensures-both (λ (r : BacktestResult). All IsPriced r.state.trades)
      (λ (r : BacktestResult). IsBalanced start r.state) _ (run e d)
      (λ r priced (points, _).
        compute-is_ok e.config r priced
          (rw points (curve_drawdown-is_ok start (nets r.state.trades))))
      (run-IsPriced e d) (run-IsBalanced e d)
