-- ===== src/Backtest/Steps.antt =====
-- What one minute, and one decision, can do to the state of a run.
use tool_trade.Common.{◌≤◌, ◌≡◌, refl, inl, inr, Option, none, some, List, arith, Bool-cases, ltb}
use tool_trade.Market.Klines.{Candle}
use tool_trade.Models.{Direction, long, short, wait, unknown, Timestamp}
use tool_trade.Result.{
  Result, ok, err, ◌>>=◌, Ensures, Ensures-bind, Ensures-reraise, reraise, backtest_execution,
  signal_validation,
}
use tool_trade.Monitor.Candles.{
  MonitorOutcome, entry_hit, monitoring, ambiguous, touch_exit, touch_entry,
}
use tool_trade.Text.{Text}
use tool_trade.Validator.{SignalAnalysis, SignalCandidate, validate_analysis}
use tool_trade.Backtest.Config.{BacktestConfig}
use tool_trade.Backtest.Records.{
  Fill, Exit, ActiveSignal, entry, exit, BlockReason, active_signal, event_blackout, RunState,
}
use tool_trade.Backtest.Fills.{open_fill, close_exit}
use tool_trade.Backtest.Minutes.{
  note_ambiguity, note_entry_ambiguity, note_exit_ambiguity, entered, closed, on_entry, on_exit,
  on_fill, on_active, monitor, watch,
}
use tool_trade.Backtest.Decisions.{
  Engine, blocked, recorded, count_long, count_short, count_wait, rejected, activated, on_validated,
  on_decision, on_answer, decide_candle, blackout_reason, after_blackout, on_candle,
}

-- The state after one minute candle: nothing happened, the pending signal was entered, the order within
-- the candle is not known, or the position was closed. A signal is watched from its decision time on.
pub data Minute (config : BacktestConfig) (c : Candle) (st : RunState) : RunState → Type 0 where
  same : Minute config c st st
  entering :
      (a : ActiveSignal) (f : Fill)
      → st.active ≡ some a
      → a.fill ≡ none
      → a.decision_time ≤ Candle.timestamp c
      → open_fill config a (Candle.timestamp c) st.balance ≡ ok f
      → Minute config c st (entered a st f)
  unclear_entry :
      (a : ActiveSignal)
      → st.active ≡ some a
      → a.fill ≡ none
      → Minute config c st (note_entry_ambiguity (note_ambiguity a (Candle.timestamp c) entry st))
  unclear_exit :
      (a : ActiveSignal) (f : Fill)
      → st.active ≡ some a
      → a.fill ≡ some f
      → Minute config c st (note_exit_ambiguity (note_ambiguity a (Candle.timestamp c) exit st))
  closing :
      (a : ActiveSignal) (f : Fill) (x : Exit) (o : MonitorOutcome)
      → st.active ≡ some a
      → a.fill ≡ some f
      → touch_exit a.direction a.stop_loss a.take_profit (Candle.high c) (Candle.low c) ≡ ok o
      → close_exit config a f o (Candle.timestamp c) ≡ ok x
      → Minute config c st (closed a f st x)

module _ (config : BacktestConfig) (c : Candle) (st : RunState) (a : ActiveSignal)
    (taken : st.active ≡ some a) where
  on_entry-Minute :
      (o : MonitorOutcome)
      → a.fill ≡ none
      → a.decision_time ≤ Candle.timestamp c
      → Ensures (Minute config c st) (on_entry config (Candle.timestamp c) st a o)
  unfolding on_entry
  on_entry-Minute entry_hit w due =
      Ensures-bind (Minute config c st) (open_fill config a (Candle.timestamp c) st.balance) _
        λ f e. entering a f taken w due e
  on_entry-Minute ambiguous w due = unclear_entry a taken w
  on_entry-Minute _ w due = same

  closing-Minute :
      (f : Fill) (o : MonitorOutcome)
      → a.fill ≡ some f
      → touch_exit a.direction a.stop_loss a.take_profit (Candle.high c) (Candle.low c) ≡ ok o
      → Ensures
          (Minute config c st)
          (close_exit config a f o (Candle.timestamp c) >>= λ x. ok (closed a f st x))
  closing-Minute f o w t =
      Ensures-bind (Minute config c st) (close_exit config a f o (Candle.timestamp c)) _
        λ x e. closing a f x o taken w t e

  on_exit-Minute :
      (f : Fill) (o : MonitorOutcome)
      → a.fill ≡ some f
      → touch_exit a.direction a.stop_loss a.take_profit (Candle.high c) (Candle.low c) ≡ ok o
      → Ensures (Minute config c st) (on_exit config (Candle.timestamp c) st a f o)
  unfolding on_exit
  on_exit-Minute f monitoring w t = same
  on_exit-Minute f ambiguous w t = unclear_exit a f taken w
  on_exit-Minute f _ w t = closing-Minute f _ w t

  on_fill-Minute :
      (f : Option Fill)
      → a.fill ≡ f
      → a.decision_time ≤ Candle.timestamp c
      → Ensures (Minute config c st) (on_fill config c st a f)
  unfolding on_fill
  on_fill-Minute none w due =
      Ensures-bind (Minute config c st)
        (touch_entry a.direction a.entry a.stop_loss a.take_profit (Candle.high c) (Candle.low c)) _
        λ o _. on_entry-Minute o w due
  on_fill-Minute (some f) w due =
      Ensures-bind (Minute config c st)
        (touch_exit a.direction a.stop_loss a.take_profit (Candle.high c) (Candle.low c)) _
        λ o t. on_exit-Minute f o w t

on_active-Minute :
    (config : BacktestConfig) (c : Candle) (st : RunState) (active : Option ActiveSignal)
    → st.active ≡ active
    → Ensures (Minute config c st) (on_active config c st active)
unfolding on_active
on_active-Minute config c st none e = same
on_active-Minute config c st (some a) e =
    elim (Bool-cases (ltb (Candle.timestamp c) a.decision_time)) [
      | inl early ↦ rw early same
      | inr due ↦ rw due (on_fill-Minute config c st a e a.fill refl (ground arith))
    ]

pub watch-Minute :
    (config : BacktestConfig) (c : Candle) (st : RunState)
    → Ensures (Minute config c st) (watch config c st)
unfolding watch monitor
watch-Minute config c st =
    Ensures-reraise (Minute config c st) (on_active config c st st.active) backtest_execution
      (on_active-Minute config c st st.active refl)

-- The state after one decision candle: it was skipped, or its answer was a WAIT, was rejected, or became
-- the active signal where there was none.
pub data Decision (e : Engine) (c : Candle) (time : Timestamp) (st : RunState)
    : RunState → Type 0 where
  skipped :
      (why : BlockReason) (d : Option Direction) (at : Option Timestamp)
      → Decision e c time st (blocked (Candle.timestamp c) time why d at st)
  waited :
      (a : SignalAnalysis)
      → st.active ≡ none
      → Decision e c time st (count_wait (recorded e c a st))
  refused_long :
      (a : SignalAnalysis)
      → st.active ≡ none
      → Decision e c time st (rejected c a (count_long (recorded e c a st)))
  refused_short :
      (a : SignalAnalysis)
      → st.active ≡ none
      → Decision e c time st (rejected c a (count_short (recorded e c a st)))
  went_long :
      (a : SignalAnalysis) (k : SignalCandidate)
      → st.active ≡ none
      → validate_analysis a e.guards ≡ ok k
      → Decision e c time st (activated c time k (count_long (recorded e c a st)))
  went_short :
      (a : SignalAnalysis) (k : SignalCandidate)
      → st.active ≡ none
      → validate_analysis a e.guards ≡ ok k
      → Decision e c time st (activated c time k (count_short (recorded e c a st)))

pub Decision-minutes :
    (e : Engine) (c : Candle) (time : Timestamp) (st s : RunState)
    → Decision e c time st s
    → s.minutes ≡ st.minutes
Decision-minutes e c time st s (skipped why d at) = refl
Decision-minutes e c time st s (waited a free) = refl
Decision-minutes e c time st s (refused_long a free) = refl
Decision-minutes e c time st s (refused_short a free) = refl
Decision-minutes e c time st s (went_long a k free v) = refl
Decision-minutes e c time st s (went_short a k free v) = refl

module _ (e : Engine) (c : Candle) (time : Timestamp) (st : RunState) where
  on_validated-Decision :
      (a : SignalAnalysis) (s : RunState) (r : Result SignalCandidate)
      → ((k : SignalCandidate) → r ≡ ok k → Decision e c time st (activated c time k s))
      → Decision e c time st (rejected c a s)
      → Ensures (Decision e c time st) (on_validated c time a s r)
  unfolding on_validated
  on_validated-Decision a s (ok k) f g = f k refl
  on_validated-Decision a s (err signal_validation) f g = g
  on_validated-Decision a s (err _) f g = tt

  on_decision-Decision :
      (a : SignalAnalysis) (d : Direction)
      → st.active ≡ none
      → Ensures (Decision e c time st) (on_decision e c time a (recorded e c a st) d)
  unfolding on_decision
  on_decision-Decision a long free =
      on_validated-Decision a (count_long (recorded e c a st)) (validate_analysis a e.guards)
        (λ k h. went_long a k free h) (refused_long a free)
  on_decision-Decision a short free =
      on_validated-Decision a (count_short (recorded e c a st)) (validate_analysis a e.guards)
        (λ k h. went_short a k free h) (refused_short a free)
  on_decision-Decision a wait free = waited a free
  on_decision-Decision a unknown free = tt

  on_answer-Decision :
      (answer : Option SignalAnalysis)
      → st.active ≡ none
      → Ensures (Decision e c time st) (on_answer e c time st answer)
  unfolding on_answer
  on_answer-Decision none free = tt
  on_answer-Decision (some a) free = on_decision-Decision a a.decision free

  after_blackout-Decision :
      (window : List Candle) (reason : Option Text)
      → st.active ≡ none
      → Ensures (Decision e c time st) (after_blackout e window c time st reason)
  unfolding after_blackout decide_candle
  after_blackout-Decision window (some t) free = skipped (event_blackout t) none none
  after_blackout-Decision window none free =
      Ensures-bind (Decision e c time st) (e.indicators window) _ λ _ _.
        Ensures-bind (Decision e c time st) (reraise (e.decide window) backtest_execution) _
          λ answer _. on_answer-Decision answer free

  pub on_candle-Decision :
      (window : List Candle) (active : Option ActiveSignal)
      → st.active ≡ active
      → Ensures (Decision e c time st) (on_candle e window c time st active)
  unfolding on_candle
  on_candle-Decision window none free =
      after_blackout-Decision window (blackout_reason e.blackout time) free
  on_candle-Decision window (some a) taken =
      skipped active_signal (some a.direction) (some a.signal_candle_ts)
