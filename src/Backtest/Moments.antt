-- ===== src/Backtest/Moments.antt =====
-- The times at which `monitor` of backtest/engine.py enters and closes a position.
use tool_trade.Common.{
  ℕ, ◌+◌, ◌≤◌, ◌<◌, ◌≡◌, refl, sym, ap, subst, ◌∙◌, true, false, none, some, List, ◌∷◌, arith, All,
  All-append,
}
use tool_trade.Market.Klines.{Candle}
use tool_trade.Models.{Timestamp, number}
use tool_trade.Decimal
use tool_trade.Decimal.{Decimal}
use tool_trade.Demo.Account.{resolve_quantity, gross_pnl, exit_fee}
use tool_trade.Monitor.Candles.{MonitorOutcome}
use tool_trade.Result.{Ensures, Ensures-eq_ok, Ensures-bind}
use tool_trade.Market.Order.{IsAscending}
use tool_trade.Backtest.Config.{BacktestConfig}
use tool_trade.Backtest.Records.{Fill, Exit, ActiveSignal, BacktestTrade, RunState}
use tool_trade.Backtest.Fills.{
  fill_factor, open_fill, close_exit, exit_level, funding_cost, r_multiple, finalize_trade,
}
use tool_trade.Backtest.Minutes.{closed, entered}
use tool_trade.Backtest.Steps.{Minute, same, entering, unclear_entry, unclear_exit, closing}

-- From the close of the signal's candle to the entry, and from there to the exit.
abbrev pub IsDecided : ℕ → ActiveSignal → Type 0
IsDecided period a = a.decision_time ≡ a.signal_candle_ts + period

abbrev pub IsTimed : ℕ → BacktestTrade → Type 0
IsTimed period t =
    (t.signal.signal_candle_ts + period ≤ t.fill.entry_time)
    × ((x : Exit) → t.exit ≡ some x → t.fill.entry_time < x.exit_time)

-- The minutes to come are ascending and later than the entry of the open position.
pub record IsOnTime (period : ℕ) (cs : List Candle) (st : RunState) : Type 0 where
  pub ascending : IsAscending cs
  pub decided : (a : ActiveSignal) → st.active ≡ some a → IsDecided period a × (a.exit ≡ none)
  pub filled :
      (a : ActiveSignal) (f : Fill)
      → st.active ≡ some a
      → a.fill ≡ some f
      → (a.decision_time ≤ f.entry_time) × All (λ c. f.entry_time < Candle.timestamp c) cs
  pub trades : All (IsTimed period) st.trades

open_fill-time :
    (config : BacktestConfig) (a : ActiveSignal) (t : Timestamp) (b : Decimal)
    → Ensures (λ f. f.entry_time ≡ t) (open_fill config a t b)
unfolding open_fill
open_fill-time config a t b =
    let P : Fill → Type 0 = λ f. f.entry_time ≡ t in
    Ensures-bind P (fill_factor config.slippage_bps a.direction true) _ λ factor _.
      Ensures-bind P
        (resolve_quantity (number b) (number config.margin_per_trade) config.leverage
          (number config.risk_percent) (number (Decimal.mul a.entry factor)) (number a.stop_loss))
        _ λ sized _. refl

close_exit-time :
    (config : BacktestConfig) (a : ActiveSignal) (f : Fill) (o : MonitorOutcome) (t : Timestamp)
    → Ensures (λ x. x.exit_time ≡ t) (close_exit config a f o t)
unfolding close_exit
close_exit-time config a f o t =
    let P : Exit → Type 0 = λ x. x.exit_time ≡ t in
    Ensures-bind P (fill_factor config.slippage_bps a.direction false) _ λ factor _.
      let at = Decimal.mul (exit_level o a) factor in
      Ensures-bind P (gross_pnl a.direction (number f.entry_price) (number at) (number f.quantity))
        _
        λ gross _.
          Ensures-bind P (exit_fee (number at) (number f.quantity) (number config.fee_rate)) _
            λ fee _.
              Ensures-bind P
                (r_multiple
                  (Decimal.sub (Decimal.sub (Decimal.sub gross f.entry_fee) fee)
                    (funding_cost config f t))
                  f.risk_amount)
                _ λ r _. refl

module _ (period : ℕ) (c : Candle) (cs : List Candle) (st : RunState)
    (h : IsOnTime period (c ∷ cs) st) where
  -- The fill of the position that is still the active one's.
  still_filled :
      (a : ActiveSignal) (f : Fill)
      → st.active ≡ some a
      → a.fill ≡ some f
      → (a.decision_time ≤ f.entry_time) × All (λ d. f.entry_time < Candle.timestamp d) cs
  still_filled a f e w = let (l, later) = h.filled a f e w in (l, later.1)

  same-IsOnTime : IsOnTime period cs st
  same-IsOnTime = record {
    ascending = h.ascending.1;
    decided = h.decided;
    filled = still_filled;
    trades = h.trades;
  }

  unclear-IsOnTime :
      (a b : ActiveSignal) (s : RunState)
      → st.active ≡ some a
      → s.active ≡ some b
      → (b.decision_time ≡ a.decision_time)
        × (b.signal_candle_ts ≡ a.signal_candle_ts)
        × (b.exit ≡ a.exit)
        × (b.fill ≡ a.fill)
      → s.trades ≡ st.trades
      → IsOnTime period cs s
  unclear-IsOnTime a b s e k (t, ts, x, w) same_trades = record {
    ascending = h.ascending.1;
    decided = λ d l.
        let (u, v) = h.decided a e in
        let is : b ≡ d = cc in
        subst (λ z. IsDecided period z × (z.exit ≡ none)) is
          (t ∙ u ∙ ap (λ y. y + period) (sym ts), x ∙ v);
    filled = λ d f l m.
        let is : d ≡ b = cc in
        let at : b.fill ≡ some f = subst (λ z. z.fill ≡ some f) is m in
        let (u, v) = still_filled a f e (sym w ∙ at) in (rw (is, t) u, v);
    trades = rw same_trades h.trades;
  }

  closing-IsOnTime :
      (a : ActiveSignal) (f : Fill) (x : Exit)
      → st.active ≡ some a
      → a.fill ≡ some f
      → x.exit_time ≡ Candle.timestamp c
      → IsOnTime period cs (closed a f st x)
  unfolding finalize_trade
  closing-IsOnTime a f x e w at =
      let (due, later) = h.filled a f e w in
      let (when, _) = h.decided a e in
      record {
        ascending = h.ascending.1;
        decided = λ b k. cc;
        filled = λ b g k. cc;
        trades = All-append (IsTimed period) st.trades _ h.trades (
          (
            (omega arith),
            λ y k.
                (let is : x ≡ y = cc in subst (λ z. f.entry_time < z.exit_time) is (omega arith)),
          ),
          tt,
        );
      }

  entering-IsOnTime :
      (a : ActiveSignal) (f : Fill)
      → st.active ≡ some a
      → a.decision_time ≤ Candle.timestamp c
      → f.entry_time ≡ Candle.timestamp c
      → IsOnTime period cs (entered a st f)
  entering-IsOnTime a f e due at = record {
    ascending = h.ascending.1;
    decided = λ b k.
        let (u, v) = h.decided a e in
        let is : record a { fill = some f } ≡ b = cc in
        subst (λ z. IsDecided period z × (z.exit ≡ none)) is (u, v);
    filled = λ b g k w.
        let is : record a { fill = some f } ≡ b = cc in
        let filled : some f ≡ some g = ap (λ (z : ActiveSignal). z.fill) is ∙ w in
        let same_fill : f ≡ g = cc in
        let when : a.decision_time ≡ b.decision_time =
          ap (λ (z : ActiveSignal). z.decision_time) is in
        subst
          (λ (z : Fill).
            (b.decision_time ≤ z.entry_time) × All (λ d. z.entry_time < Candle.timestamp d) cs)
          same_fill (rw (at, sym when) (due, h.ascending.0));
    trades = h.trades;
  }

  pub Minute-IsOnTime :
      (config : BacktestConfig) (s : RunState) → Minute config c st s → IsOnTime period cs s
  Minute-IsOnTime config s same = same-IsOnTime
  Minute-IsOnTime config s (entering a f e w due filled) = entering-IsOnTime a f e due (
      Ensures-eq_ok (λ (g : Fill). g.entry_time ≡ Candle.timestamp c) _ _
        (open_fill-time config a (Candle.timestamp c) st.balance) filled)
  Minute-IsOnTime config s (unclear_entry a e w) =
      unclear-IsOnTime a _ _ e refl (refl, refl, refl, refl) refl
  Minute-IsOnTime config s (unclear_exit a f e w) =
      unclear-IsOnTime a _ _ e refl (refl, refl, refl, refl) refl
  Minute-IsOnTime config s (closing a f x o e w t k) = closing-IsOnTime a f x e w (
      Ensures-eq_ok (λ (y : Exit). y.exit_time ≡ Candle.timestamp c) _ _
        (close_exit-time config a f o (Candle.timestamp c)) k)
