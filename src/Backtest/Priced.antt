-- ===== src/Backtest/Priced.antt =====
-- The levels and the quantities of the trades of a run, backtest/engine.py.
use tool_trade.Common.{
  ◌≡◌, refl, sym, subst, ◌∙◌, true, Option, none, some, [], ◌∷◌, ◌++◌, All, All-append,
}
use tool_trade.Decimal
use tool_trade.Decimal.{Decimal}
use tool_trade.Demo.Account.{SizingRule, resolve_quantity}
use tool_trade.Demo.Account.Arguments.{IsAbove0}
use tool_trade.Demo.Account.Sizing.{IsSized, resolve_quantity-Ensures}
use tool_trade.Market.Klines.{Candle}
use tool_trade.Models.{Timestamp, Value, IntArg, number}
use tool_trade.Result.{ok, Ensures, Ensures-bind, Ensures-eq_ok, Ensures-map}
use tool_trade.Validator.{SignalAnalysis, SignalCandidate, validate_analysis}
use tool_trade.Validator.Guardrails.{GuardrailConfig}
use tool_trade.Validator.Accepted.{IsTradable, validate_analysis-Ensures}
use tool_trade.Backtest.Config.{BacktestConfig}
use tool_trade.Backtest.Records.{Fill, Exit, ActiveSignal, BacktestTrade, RunState}
use tool_trade.Backtest.Fills.{fill_factor, open_fill, finalize_trade}
use tool_trade.Backtest.Minutes.{closed}
use tool_trade.Backtest.Decisions.{Engine}
use tool_trade.Backtest.Replay.{final_state}
use tool_trade.Backtest.Steps.{
  Minute, same, entering, unclear_entry, unclear_exit, closing, Decision, skipped, waited,
  refused_long, refused_short, went_long, went_short,
}

abbrev pub HasLevels : ActiveSignal → Type 0
HasLevels a = IsAbove0 a.entry × IsAbove0 a.stop_loss × IsAbove0 a.take_profit

abbrev pub IsPriced : BacktestTrade → Type 0
IsPriced t = HasLevels t.signal × IsAbove0 t.fill.quantity

pub record ArePriced (st : RunState) : Type 0 where
  pub levels : (a : ActiveSignal) → st.active ≡ some a → HasLevels a
  pub quantity :
      (a : ActiveSignal) (f : Fill) → st.active ≡ some a → a.fill ≡ some f → IsAbove0 f.quantity
  pub trades : All IsPriced st.trades

resolve_quantity-pos :
    (b m : Value) (l : IntArg) (r e s : Value)
    → Ensures (λ q. IsAbove0 q.0) (resolve_quantity b m l r e s)
resolve_quantity-pos b m l r e s =
    Ensures-map (IsSized b m l r e s) (λ (q : Decimal × SizingRule). IsAbove0 q.0)
      (resolve_quantity b m l r e s) (λ q h. h.above) (resolve_quantity-Ensures b m l r e s)

open_fill-pos :
    (config : BacktestConfig) (a : ActiveSignal) (t : Timestamp) (b : Decimal)
    → Ensures (λ f. IsAbove0 f.quantity) (open_fill config a t b)
unfolding open_fill
open_fill-pos config a t b =
    let P : Fill → Type 0 = λ f. IsAbove0 f.quantity in
    Ensures-bind P (fill_factor config.slippage_bps a.direction true) _ λ factor _.
      let at = number (Decimal.mul a.entry factor) in
      Ensures-bind P
        (resolve_quantity (number b) (number config.margin_per_trade) config.leverage
          (number config.risk_percent) at (number a.stop_loss))
        _
        λ sized is_sized.
          Ensures-eq_ok (λ (q : Decimal × SizingRule). IsAbove0 q.0) _ sized
            (resolve_quantity-pos (number b) (number config.margin_per_trade) config.leverage
              (number config.risk_percent) at (number a.stop_loss))
            is_sized

candidate-levels :
    (a : SignalAnalysis) (guards : GuardrailConfig) (k : SignalCandidate)
    → validate_analysis a guards ≡ ok k
    → IsAbove0 k.entry × IsAbove0 k.stop_loss × IsAbove0 k.take_profit
candidate-levels a guards k e =
    let t = Ensures-eq_ok (IsTradable guards a) _ k (validate_analysis-Ensures a guards) e in
    let (_, _, _, entry, stop, take, _) = t.given in rw t.is_candidate (entry, stop, take)

module _ (st : RunState) (h : ArePriced st) where
  moved-ArePriced :
      (a b : ActiveSignal) (s : RunState)
      → st.active ≡ some a
      → s.active ≡ some b
      → HasLevels b
      → ((f : Fill) → b.fill ≡ some f → IsAbove0 f.quantity)
      → s.trades ≡ st.trades
      → ArePriced s
  moved-ArePriced a b s e k levels filled t = record {
    levels = λ d l. let is : b ≡ d = cc in subst HasLevels is levels;
    quantity = λ d f l w.
        let is : d ≡ b = cc in filled f (subst (λ (z : ActiveSignal). z.fill ≡ some f) is w);
    trades = rw t h.trades;
  }

  closed-ArePriced :
      (a : ActiveSignal) (f : Fill) (x : Exit)
      → st.active ≡ some a
      → a.fill ≡ some f
      → ArePriced (closed a f st x)
  unfolding finalize_trade
  closed-ArePriced a f x e w = record {
    levels = λ b k. cc;
    quantity = λ b g k. cc;
    trades = All-append IsPriced st.trades _ h.trades ((h.levels a e, h.quantity a f e w), tt);
  }

  pub Minute-ArePriced :
      (config : BacktestConfig) (c : Candle) (s : RunState) → Minute config c st s → ArePriced s
  Minute-ArePriced config c s same = h
  Minute-ArePriced config c s (entering a f e w due filled) =
      moved-ArePriced a _ _ e refl (h.levels a e)
        (λ g k.
          let is : f ≡ g = cc in
          subst (λ (z : Fill). IsAbove0 z.quantity) is
            (Ensures-eq_ok (λ (z : Fill). IsAbove0 z.quantity) _ f
              (open_fill-pos config a (Candle.timestamp c) st.balance) filled))
        refl
  Minute-ArePriced config c s (unclear_entry a e w) =
      moved-ArePriced a _ _ e refl (h.levels a e) (λ f k. h.quantity a f e k) refl
  Minute-ArePriced config c s (unclear_exit a f e w) =
      moved-ArePriced a _ _ e refl (h.levels a e) (λ g k. h.quantity a g e k) refl
  Minute-ArePriced config c s (closing a f x o e w t k) = closed-ArePriced a f x e w

  kept-ArePriced : (s : RunState) → s.active ≡ st.active → s.trades ≡ st.trades → ArePriced s
  kept-ArePriced s e t = record {
    levels = λ a k. h.levels a (sym e ∙ k);
    quantity = λ a f k. h.quantity a f (sym e ∙ k);
    trades = rw t h.trades;
  }

  started-ArePriced :
      (b : ActiveSignal) (s : RunState)
      → s.active ≡ some b
      → HasLevels b
      → b.fill ≡ none
      → s.trades ≡ st.trades
      → ArePriced s
  started-ArePriced b s k levels w t = record {
    levels = λ d l. let is : b ≡ d = cc in subst HasLevels is levels;
    quantity = λ d f l m.
        let is : b ≡ d = cc in
        let empty : d.fill ≡ none = subst (λ (z : ActiveSignal). z.fill ≡ none) is w in
        absurd (cc (empty, m));
    trades = rw t h.trades;
  }

  pub Decision-ArePriced :
      (e : Engine) (c : Candle) (time : Timestamp) (s : RunState)
      → Decision e c time st s
      → ArePriced s
  Decision-ArePriced e c time s (skipped why d at) = kept-ArePriced _ refl refl
  Decision-ArePriced e c time s (waited a free) = kept-ArePriced _ refl refl
  Decision-ArePriced e c time s (refused_long a free) = kept-ArePriced _ refl refl
  Decision-ArePriced e c time s (refused_short a free) = kept-ArePriced _ refl refl
  Decision-ArePriced e c time s (went_long a k free v) =
      started-ArePriced _ _ refl (candidate-levels a e.guards k v) refl refl
  Decision-ArePriced e c time s (went_short a k free v) =
      started-ArePriced _ _ refl (candidate-levels a e.guards k v) refl refl

  last_trade-IsPriced :
      (a : ActiveSignal) (f : Fill)
      → st.active ≡ some a
      → a.fill ≡ some f
      → IsPriced (finalize_trade a f)
  unfolding finalize_trade
  last_trade-IsPriced a f e w = (h.levels a e, h.quantity a f e w)

  pub final-IsPriced :
      (active : Option ActiveSignal)
      → st.active ≡ active
      → All IsPriced (final_state st active).trades
  final-IsPriced none e = h.trades
  final-IsPriced (some a) e = of_fill a.fill refl
    where
      of_fill :
          (f : Option Fill)
          → a.fill ≡ f
          → All IsPriced
              (elim f [ none ↦ st.trades | some x ↦ st.trades ++ (finalize_trade a x ∷ []) ])
      of_fill none w = h.trades
      of_fill (some f) w =
          All-append IsPriced st.trades _ h.trades (last_trade-IsPriced a f e w, tt)
