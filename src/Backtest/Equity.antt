-- ===== src/Backtest/Equity.antt =====
-- The equity curve that `run` of backtest/engine.py returns, and the balances of its trades.
use tool_trade.Common.{◌≡◌, refl, sym, ap, ◌∙◌, Option, none, some, List, [], ◌∷◌, ◌++◌, arith}
use mathlib.Core.List.{append-nil}
use tool_trade.Decimal
use tool_trade.Decimal.{Decimal}
use tool_trade.Market.Klines.{Candle}
use tool_trade.Models.{Timestamp}
use tool_trade.Result.{Ensures, Ensures-map}
use tool_trade.Backtest.Config.{BacktestConfig}
use tool_trade.Backtest.Data.{HistoricalData}
use tool_trade.Backtest.Records.{Fill, Exit, ActiveSignal, BacktestTrade, RunState, BacktestResult}
use tool_trade.Backtest.Fills.{finalize_trade}
use tool_trade.Backtest.Minutes.{closed}
use tool_trade.Backtest.Decisions.{Engine}
use tool_trade.Backtest.Replay.{summary, final_state, run}
use tool_trade.Backtest.Steps.{
  Minute, same, entering, unclear_entry, unclear_exit, closing, Decision, skipped, waited,
  refused_long, refused_short, went_long, went_short,
}
use tool_trade.Backtest.Invariant.{run-keeps, with_period}

-- The net profits of the trades that were closed, in order.
abbrev pub nets : List BacktestTrade → List Decimal
nets [] = []
nets (t ∷ ts) = elim t.exit [ none ↦ nets ts | some x ↦ x.net_pnl ∷ nets ts ]

-- The balances from a start through the profits, and the last of them.
abbrev pub curve : Decimal → List Decimal → List Decimal
curve b [] = b ∷ []
curve b (n ∷ ns) = b ∷ curve (Decimal.add b n) ns

abbrev pub last_balance : Decimal → List Decimal → Decimal
last_balance b [] = b
last_balance b (n ∷ ns) = last_balance (Decimal.add b n) ns

curve-snoc :
    (b n : Decimal) (ns : List Decimal)
    → curve b (ns ++ (n ∷ [])) ≡ curve b ns ++ (Decimal.add (last_balance b ns) n ∷ [])
curve-snoc b n [] = refl
curve-snoc b n (m ∷ ns) = ap (λ r. b ∷ r) (curve-snoc (Decimal.add b m) n ns)

last_balance-snoc :
    (b n : Decimal) (ns : List Decimal)
    → last_balance b (ns ++ (n ∷ [])) ≡ Decimal.add (last_balance b ns) n
last_balance-snoc b n [] = refl
last_balance-snoc b n (m ∷ ns) = last_balance-snoc (Decimal.add b m) n ns

nets-snoc :
    (ts : List BacktestTrade) (t : BacktestTrade) → nets (ts ++ (t ∷ [])) ≡ nets ts ++ nets (t ∷ [])
nets-snoc [] t = refl
nets-snoc (u ∷ ts) t = ground (arith, nets-snoc ts t)

-- The active signal has no exit yet, and the balance and the curve are those of the trades.
pub record IsLedger (start : Decimal) (st : RunState) : Type 0 where
  pub unclosed : (a : ActiveSignal) → st.active ≡ some a → a.exit ≡ none
  pub points : st.equity_curve ≡ curve start (nets st.trades)
  pub balance : st.balance ≡ last_balance start (nets st.trades)

module _ (start : Decimal) (st : RunState) (h : IsLedger start st) where
  closed-IsLedger : (a : ActiveSignal) (f : Fill) (x : Exit) → IsLedger start (closed a f st x)
  unfolding finalize_trade
  closed-IsLedger a f x =
      let t = finalize_trade (record a { exit = some x }) f in
      let more : nets (st.trades ++ (t ∷ [])) ≡ nets st.trades ++ (x.net_pnl ∷ []) =
        nets-snoc st.trades t in
      record {
        unclosed = λ b e. cc;
        points = rw (h.points, h.balance, more) (sym (curve-snoc start x.net_pnl (nets st.trades)));
        balance = rw (h.balance, more) (sym (last_balance-snoc start x.net_pnl (nets st.trades)));
      }

  Minute-IsLedger :
      (config : BacktestConfig) (c : Candle) (s : RunState)
      → Minute config c st s
      → IsLedger start s
  Minute-IsLedger config c s same = h
  Minute-IsLedger config c s (entering a f e w due filled) = record {
    unclosed = λ b k. let kept = h.unclosed a e in ground arith;
    points = h.points;
    balance = h.balance;
  }
  Minute-IsLedger config c s (unclear_entry a e w) = record {
    unclosed = λ b k. let kept = h.unclosed a e in ground arith;
    points = h.points;
    balance = h.balance;
  }
  Minute-IsLedger config c s (unclear_exit a f e w) = record {
    unclosed = λ b k. let kept = h.unclosed a e in ground arith;
    points = h.points;
    balance = h.balance;
  }
  Minute-IsLedger config c s (closing a f x o e w t k) = closed-IsLedger a f x

  started-IsLedger :
      (s : RunState)
      → s.equity_curve ≡ st.equity_curve
      → s.balance ≡ st.balance
      → s.trades ≡ st.trades
      → ((a : ActiveSignal) → s.active ≡ some a → a.exit ≡ none)
      → IsLedger start s
  started-IsLedger s e b t u = record {
    unclosed = u;
    points = e ∙ h.points ∙ ap (λ x. curve start (nets x)) (sym t);
    balance = b ∙ h.balance ∙ ap (λ x. last_balance start (nets x)) (sym t);
  }

  Decision-IsLedger :
      (e : Engine) (c : Candle) (time : Timestamp) (s : RunState)
      → Decision e c time st s
      → IsLedger start s
  Decision-IsLedger e c time s (skipped why d at) = started-IsLedger _ refl refl refl h.unclosed
  Decision-IsLedger e c time s (waited a free) = started-IsLedger _ refl refl refl h.unclosed
  Decision-IsLedger e c time s (refused_long a free) = started-IsLedger _ refl refl refl h.unclosed
  Decision-IsLedger e c time s (refused_short a free) = started-IsLedger _ refl refl refl h.unclosed
  Decision-IsLedger e c time s (went_long a k free v) =
      started-IsLedger _ refl refl refl (λ b w. ground arith)
  Decision-IsLedger e c time s (went_short a k free v) =
      started-IsLedger _ refl refl refl (λ b w. ground arith)

-- The curve and the final balance of a result are those of its closed trades.
abbrev pub IsBalanced : Decimal → RunState → Type 0
IsBalanced start st =
    (st.equity_curve ≡ curve start (nets st.trades))
    × (st.balance ≡ last_balance start (nets st.trades))

open_trade :
    (ts : List BacktestTrade) (a : ActiveSignal) (f : Fill)
    → a.exit ≡ none
    → nets (ts ++ (finalize_trade a f ∷ [])) ≡ nets ts
unfolding finalize_trade
open_trade ts a f e = nets-snoc ts (finalize_trade a f) ∙ rw e (append-nil (nets ts))

final-IsBalanced :
    (start : Decimal) (st : RunState) (active : Option ActiveSignal)
    → st.active ≡ active
    → IsLedger start st
    → IsBalanced start (final_state st active)
final-IsBalanced start st none e h = (h.points, h.balance)
final-IsBalanced start st (some a) e h = of_fill a.fill
  where
    of_fill :
        (f : Option Fill)
        → IsBalanced start (record st {
          trades = elim f [ none ↦ st.trades | some x ↦ st.trades ++ (finalize_trade a x ∷ []) ];
        })
    of_fill none = (h.points, h.balance)
    of_fill (some f) =
        let k = open_trade st.trades a f (h.unclosed a e) in (rw k h.points, rw k h.balance)

-- The equity curve of a returned result starts at the initial balance and moves by the net profit of each
-- closed trade, in order; the final balance is its last point.
pub run-IsBalanced :
    (e : Engine) (d : HistoricalData)
    → Ensures (λ r. IsBalanced e.config.initial_balance r.state) (run e d)
unfolding summary
run-IsBalanced e d =
    let start = e.config.initial_balance in
    with_period e d (λ r. IsBalanced start r.state)
      λ period known.
        Ensures-map _ (λ (r : BacktestResult). IsBalanced start r.state) (run e d)
          (λ r (st, is_summary, h). rw is_summary (final-IsBalanced start st st.active refl h))
          (run-keeps e period (λ n cs st. IsLedger start st)
            (λ n c cs st s h m. Minute-IsLedger start st h e.config c s m)
            (λ n cs st h. record { unclosed = h.unclosed; points = h.points; balance = h.balance })
            (λ n c time st s at h m. Decision-IsLedger start st h e c time s m) d known
            (record { unclosed = λ a k. cc; points = refl; balance = refl }))
