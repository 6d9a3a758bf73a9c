-- ===== src/Backtest/Invariant.antt =====
-- The rule for invariants of a run: what each minute and each decision keeps, the run keeps. The number
-- is that of the decision candles so far, the list that of the minutes to come.
use tool_trade.Common.{
  ℕ, ◌+◌, ◌-◌, ◌≡◌, refl, subst, inl, inr, List, [], ◌∷◌, ◌++◌, arith, Bool-cases, length, take,
  drop, ltb, length-drop,
}
use tool_trade.Market.Klines.{Candle}
use tool_trade.Models.{Timestamp}
use tool_trade.Result.{Result, ok, err, ◌>>=◌, Ensures, Ensures-map, Result-cases}
use tool_trade.Backtest.Config.{interval_to_ms}
use tool_trade.Backtest.Data.{HistoricalData}
use tool_trade.Backtest.Records.{RunState, BacktestResult}
use tool_trade.Backtest.Minutes.{watch, with_minutes, drain, drain_all}
use tool_trade.Backtest.Decisions.{Engine, on_candle}
use tool_trade.Backtest.Steps.{Minute, Decision, watch-Minute, on_candle-Decision}
use tool_trade.Backtest.Replay.{turn, loop, initial_state, summary, run}

Ensures-then :
    {A B : Type 0} (P : A → Type 0) (Q : B → Type 0) (m : Result A) (f : A → Result B)
    → Ensures P m
    → ((a : A) → P a → Ensures Q (f a))
    → Ensures Q (m >>= f)
Ensures-then P Q (ok a) f h k = k a h
Ensures-then P Q (err e) f h k = tt

module _ (e : Engine) (period : ℕ) (P : ℕ → List Candle → RunState → Type 0)
    (minute : (n : ℕ) (c : Candle) (cs : List Candle) (st s : RunState)
      → P n (c ∷ cs) st
      → Minute e.config c st s
      → P n cs s)
    (settles : (n : ℕ) (cs : List Candle) (st : RunState) → P n cs st → P n cs (with_minutes cs st))
    (decision : (n : ℕ) (c : Candle) (time : Timestamp) (st s : RunState)
      → time ≡ Candle.timestamp c + period
      → P n st.minutes st
      → Decision e c time st s
      → P (n + 1) s.minutes s) where
  -- What holds of a state and the minutes that it has left.
  abbrev Holds : ℕ → RunState → Type 0
  Holds n st = P n st.minutes st

  watches :
      (n : ℕ) (c : Candle) (cs : List Candle) (st : RunState)
      → P n (c ∷ cs) st
      → Ensures (P n cs) (watch e.config c st)
  watches n c cs st h =
      Ensures-map (Minute e.config c st) (P n cs) (watch e.config c st)
        (λ s m. minute n c cs st s h m) (watch-Minute e.config c st)

  decides :
      (n : ℕ) (window : List Candle) (c : Candle) (time : Timestamp) (st : RunState)
      → time ≡ Candle.timestamp c + period
      → P n st.minutes st
      → Ensures (Holds (n + 1)) (on_candle e window c time st st.active)
  decides n window c time st at h =
      Ensures-map (Decision e c time st) (Holds (n + 1)) (on_candle e window c time st st.active)
        (λ s m. decision n c time st s at h m)
        (on_candle-Decision e c time st window st.active refl)

  drain-keeps :
      (n : ℕ) (until : Timestamp) (cs : List Candle) (st : RunState)
      → P n cs st
      → Ensures (Holds n) (drain e.config until cs st)
  unfolding drain
  drain-keeps n until [] st h = settles n [] st h
  drain-keeps n until (c ∷ cs) st h = elim (Bool-cases (ltb (Candle.timestamp c) until)) [
    | inl before ↦ rw before (
        Ensures-then (P n cs) (Holds n) (watch e.config c st) (drain e.config until cs)
          (watches n c cs st h) (λ s k. drain-keeps n until cs s k))
    | inr after ↦ rw after (settles n (c ∷ cs) st h)
  ]

  drain_all-keeps :
      (n : ℕ) (cs : List Candle) (st : RunState)
      → P n cs st
      → Ensures (Holds n) (drain_all e.config cs st)
  unfolding drain_all
  drain_all-keeps n [] st h = settles n [] st h
  drain_all-keeps n (c ∷ cs) st h =
      Ensures-then (P n cs) (Holds n) (watch e.config c st) (drain_all e.config cs)
        (watches n c cs st h) (λ s k. drain_all-keeps n cs s k)

  turn-keeps :
      (n : ℕ) (seen : List Candle) (c : Candle) (st : RunState)
      → Holds n st
      → Ensures (Holds (n + 1)) (turn e period seen c st)
  unfolding turn
  turn-keeps n seen c st h =
      let time = Candle.timestamp c + period in
      Ensures-then (Holds n) (Holds (n + 1)) (drain e.config time st.minutes st) _
        (drain-keeps n time st.minutes st h) (λ s k. decides n (seen ++ (c ∷ [])) c time s refl k)

  loop-keeps :
      (n : ℕ) (seen cs : List Candle) (st : RunState)
      → Holds n st
      → Ensures (Holds (n + length cs)) (loop e period seen cs st)
  unfolding loop
  loop-keeps n seen [] st h = let same : n + 0 ≡ n = omega arith in rw same h
  loop-keeps n seen (c ∷ cs) st h =
      let same : n + length (c ∷ cs) ≡ (n + 1) + length cs = omega arith in
      rw same (
        Ensures-then (Holds (n + 1)) (Holds ((n + 1) + length cs)) (turn e period seen c st)
          (loop e period (seen ++ (c ∷ [])) cs) (turn-keeps n seen c st h)
          (λ s k. loop-keeps (n + 1) (seen ++ (c ∷ [])) cs s k))

  -- A result is the summary of a state that the invariant holds of, after every eligible candle.
  pub run-keeps :
      (d : HistoricalData)
      → interval_to_ms e.config.timeframe ≡ ok period
      → P 0 d.minute_candles (initial_state e.config d)
      → Ensures
          (λ r.
            (st : RunState) × (r ≡ summary (length d.hour_candles - (e.config.min_candles - 1)) st)
            × Holds (length d.hour_candles - (e.config.min_candles - 1)) st)
          (run e d)
  unfolding run
  run-keeps d at h =
      let first = e.config.min_candles - 1 in
      let eligible = length d.hour_candles - first in
      let Q =
        λ (r : BacktestResult). (st : RunState) × (r ≡ summary eligible st) × Holds eligible st in
      let total : 0 + length (drop first d.hour_candles) ≡ eligible =
        omega (arith, length-drop {0} first d.hour_candles) in
      rw at (
        Ensures-then (Holds eligible) Q
          (loop e period (take first d.hour_candles) (drop first d.hour_candles)
            (initial_state e.config d))
          _
          (subst
            (λ n. Ensures (Holds n) (
              loop e period (take first d.hour_candles) (drop first d.hour_candles)
                (initial_state e.config d)))
            total (loop-keeps 0 (take first d.hour_candles) (drop first d.hour_candles) _ h))
          λ st k.
            Ensures-then (Holds eligible) Q (drain_all e.config st.minutes st) _
              (drain_all-keeps eligible st.minutes st k) λ done l. (done, refl, l))

-- A run whose timeframe has no length returns nothing.
pub with_period :
    (e : Engine) (d : HistoricalData) (Q : BacktestResult → Type 0)
    → ((period : ℕ) → interval_to_ms e.config.timeframe ≡ ok period → Ensures Q (run e d))
    → Ensures Q (run e d)
unfolding run
with_period e d Q f = elim (Result-cases (interval_to_ms e.config.timeframe)) [
  | inl (period, at) ↦ f period at
  | inr (x, at) ↦ rw at tt
]
