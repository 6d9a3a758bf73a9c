-- ===== src/Validator/Refused.antt =====
-- How a refused analysis is refused.
use tool_trade.Common.{
  ◌≡◌, refl, Bool, not, ◌&&◌, ◌||◌, ◌==◌, magnitude, inl, inr, true, false, Option, none, some,
  arith, Bool-cases,
}
use tool_trade.Decimal
use tool_trade.Decimal.{Decimal}
use tool_trade.Decimal.Quotient.{div-pos}
use tool_trade.Models.{
  Direction, long, short, unknown, Value, number, to_decimal, validate_signal_prices,
}
use tool_trade.Result.{
  Result, ok, ◌>>=◌, ◌>>◌, raise_if, or_raise, on_given, Ensures-eq_ok, RaisesOnly, RaisesOnly-bind,
  raise_if-RaisesOnly, or_raise-RaisesOnly, signal_validation,
}
use tool_trade.Validator.{
  Confidence, stated, SignalAnalysis, Prices, validate_decision, is_positive, is_wait, distance,
  usable_atr, validate_confidence, validate_funding_crowd, validate_htf_bias, check_risk_reward,
  check_fee_cover, check_bounds, check_atr, validate_trade_levels, check_prices, validate_analysis,
  int_lt, is_within, is_stale, is_crowded, is_counter, Regime, to_integral, fee_cover,
}
use tool_trade.Validator.Guardrails.{GuardrailConfig}
use tool_trade.Validator.Accepted.{AreGiven, check_prices-Ensures}
use tool_trade.Validator.Distances.{IsOrdered-distances}

abbrev Refuses {ℓ} : {A : Type ℓ} → Result A → Type 0
Refuses = RaisesOnly signal_validation

raise_if-Refuses : (b : Bool) → Refuses (raise_if b signal_validation)
raise_if-Refuses b = raise_if-RaisesOnly b signal_validation

pub to_decimal-Refuses : (v : Value) → Refuses (to_decimal v)
unfolding to_decimal
to_decimal-Refuses (number d) = ground arith
to_decimal-Refuses _ = refl

prices-Refuses : (d : Direction) (e s t : Decimal) → Refuses (validate_signal_prices d e s t)
unfolding validate_signal_prices
prices-Refuses long e s t = raise_if-Refuses (not (Decimal.lt s e && Decimal.lt e t))
prices-Refuses short e s t = raise_if-Refuses (not (Decimal.lt t e && Decimal.lt e s))
prices-Refuses _ e s t = refl

bind {ℓ κ} :
    {A : Type ℓ} {B : Type κ} (m : Result A) (f : A → Result B)
    → Refuses m
    → ((a : A) → m ≡ ok a → Refuses (f a))
    → Refuses (m >>= f)
bind = RaisesOnly-bind signal_validation

required-Refuses : (o : Option Value) → Refuses (or_raise o signal_validation)
required-Refuses o = or_raise-RaisesOnly o signal_validation

check_prices-Refuses : (a : SignalAnalysis) → Refuses (check_prices a)
unfolding check_prices
check_prices-Refuses a =
    bind (or_raise a.entry_price signal_validation) _ (required-Refuses a.entry_price) λ e _.
      bind (or_raise a.stop_loss signal_validation) _ (required-Refuses a.stop_loss) λ s _.
        bind (or_raise a.take_profit signal_validation) _ (required-Refuses a.take_profit) λ t _.
          bind (to_decimal e) _ (to_decimal-Refuses e) λ entry _.
            bind (to_decimal s) _ (to_decimal-Refuses s) λ stop _.
              bind (to_decimal t) _ (to_decimal-Refuses t) λ take _.
                bind (validate_signal_prices a.decision entry stop take) _
                  (prices-Refuses a.decision entry stop take) λ _ _. tt

-- A test, and what follows it.
guarded {ℓ} :
    {B : Type ℓ} (b : Bool) (rest : Result B)
    → Refuses rest
    → Refuses (raise_if b signal_validation >> rest)
guarded true rest h = refl
guarded false rest h = h

confidence-Refuses : (c : Confidence) → Refuses (validate_confidence c)
unfolding validate_confidence
confidence-Refuses (stated (number d)) =
    guarded (Decimal.lt d (Decimal.of_ℕ 0) || Decimal.lt (Decimal.of_ℕ 100) d)
      (ok (to_integral d.coeff d.exp)) tt
confidence-Refuses _ = refl

decision-Refuses : (d : Direction) → Refuses (validate_decision d)
unfolding validate_decision
decision-Refuses unknown = refl
decision-Refuses _ = tt

crowd-Refuses :
    (d : Direction) (funding : Option Value) (guards : GuardrailConfig)
    → Refuses (validate_funding_crowd d funding guards)
unfolding validate_funding_crowd
crowd-Refuses d (some (number rate)) guards =
    raise_if-Refuses
      (is_positive guards.max_funding_rate && is_crowded d rate guards.max_funding_rate)
crowd-Refuses d _ guards = tt

trend-Refuses :
    (d : Direction) (regime : Regime) (guards : GuardrailConfig)
    → Refuses (validate_htf_bias d regime guards)
unfolding validate_htf_bias
trend-Refuses d regime guards =
    raise_if-Refuses (not (magnitude guards.htf_bias == 0) && is_counter d regime)

close-Refuses : (close : Option Value) → Refuses (on_given to_decimal close)
close-Refuses none = tt
close-Refuses (some v) = bind (to_decimal v) _ (to_decimal-Refuses v) λ _ _. tt

-- The levels are apart, so the risk-reward divides.
ratio-Refuses :
    (guards : GuardrailConfig) (sl tp : Decimal)
    → is_positive sl ≡ true
    → is_positive tp ≡ true
    → Refuses (check_risk_reward guards sl tp)
unfolding check_risk_reward
ratio-Refuses guards sl tp ps pt =
    let (q, e, _) = div-pos tp sl pt ps in
    elim (Bool-cases (is_positive guards.min_risk_reward)) [
      | inr off ↦ rw off tt
      | inl on ↦ rw (on, e) (raise_if-Refuses (Decimal.lt q guards.min_risk_reward))
    ]

bounds-Refuses :
    (atr entry : Decimal) (close : Option Decimal) (sl tp : Decimal)
    → Refuses (check_bounds atr entry close sl tp)
unfolding check_bounds
bounds-Refuses atr entry close sl tp =
    let near = raise_if (is_stale atr entry close) signal_validation in
    let far = not (is_within (Decimal.literal 5 1) (Decimal.of_ℕ 8) atr tp) in
    guarded (not (is_within (Decimal.literal 5 1) (Decimal.of_ℕ 5) atr sl))
      (raise_if far signal_validation >> near)
      (guarded far near (raise_if-Refuses (is_stale atr entry close)))

atr-Refuses :
    (atr : Option Decimal) (entry : Decimal) (close : Option Decimal) (sl tp : Decimal)
    → Refuses (check_atr atr entry close sl tp)
unfolding check_atr
atr-Refuses none entry close sl tp = tt
atr-Refuses (some atr) entry close sl tp = elim (Bool-cases (is_positive atr)) [
  | inr off ↦ rw off tt
  | inl on ↦ rw on (bounds-Refuses atr entry close sl tp)
]

levels-Refuses :
    (a : SignalAnalysis) (guards : GuardrailConfig) (atr close : Option Decimal) (p : Prices)
    → AreGiven a p
    → Refuses (validate_trade_levels p.entry p.stop_loss p.take_profit atr close guards)
unfolding validate_trade_levels check_fee_cover
levels-Refuses a guards atr close p (_, _, _, _, _, _, ordered) =
    let (ps, pt) = IsOrdered-distances a.decision p.entry p.stop_loss p.take_profit ordered in
    let sl = distance p.entry p.stop_loss in
    let tp = distance p.take_profit p.entry in
    bind (check_risk_reward guards sl tp) _ (ratio-Refuses guards sl tp ps pt) λ _ _.
      guarded (is_positive guards.fee_rate && Decimal.lt tp (fee_cover guards p.entry))
        (check_atr atr p.entry close sl tp) (atr-Refuses atr p.entry close sl tp)

-- An analysis that is not accepted is refused by a SignalValidationError and by no other exception; the
-- division of the risk-reward never fails.
pub validate_analysis-Refuses :
    (a : SignalAnalysis) (guards : GuardrailConfig)
    → RaisesOnly signal_validation (validate_analysis a guards)
unfolding validate_analysis
validate_analysis-Refuses a guards =
    bind (validate_decision a.decision) _ (decision-Refuses a.decision) λ d _.
      bind (raise_if (is_wait d) signal_validation) _ (raise_if-Refuses (is_wait d)) λ _ _.
        bind (check_prices a) _ (check_prices-Refuses a) λ p hp.
          let given = Ensures-eq_ok _ (check_prices a) p (check_prices-Ensures a) hp in
          bind (validate_confidence a.confidence) _ (confidence-Refuses a.confidence) λ n _.
            bind (raise_if (int_lt n guards.min_confidence) signal_validation) _
              (raise_if-Refuses (int_lt n guards.min_confidence))
              λ _ _.
                bind (validate_funding_crowd a.decision a.funding_rate guards) _
                  (crowd-Refuses a.decision a.funding_rate guards)
                  λ _ _.
                    bind (validate_htf_bias a.decision a.regime guards) _
                      (trend-Refuses a.decision a.regime guards)
                      λ _ _.
                        bind (on_given to_decimal a.candle_close_price) _
                          (close-Refuses a.candle_close_price)
                          λ close _.
                            bind
                              (validate_trade_levels p.entry p.stop_loss p.take_profit
                                (usable_atr a.atr) close guards)
                              _ (levels-Refuses a guards (usable_atr a.atr) close p given) λ _ _. tt
