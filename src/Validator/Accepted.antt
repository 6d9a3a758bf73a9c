-- ===== src/Validator/Accepted.antt =====
-- What an accepted analysis is.
use tool_trade.Common.{
  ◌≡◌, ◌≢◌, refl, true, false, not, ◌&&◌, Option, none, some, ◌==◌, ℤ, magnitude, arith, subst,
}
use tool_trade.Decimal.{Decimal}
use tool_trade.Models.{
  Direction, Value, number, nan, infinite, malformed, to_decimal, validate_signal_prices,
}
use tool_trade.Models.Prices.{IsOrdered, validate_signal_prices_iff, to_decimal-pos}
use tool_trade.Result.{
  or_raise-eq_ok, ok, raise_if, or_raise, on_given, Ensures, Ensures-bind, Ensures-eq_ok,
  raise_if-eq-ok, raise_if-Ensures, signal_validation,
}
use tool_trade.Validator.{
  Regime, SignalAnalysis, SignalCandidate, Prices, validate_decision, is_positive, int_lt, is_wait,
  is_crowded, is_counter, usable_atr, validate_confidence, validate_funding_crowd,
  validate_htf_bias, validate_trade_levels, check_prices, candidate, validate_analysis,
}
use tool_trade.Validator.Guardrails.{GuardrailConfig}
use tool_trade.Validator.Limits.{IsWithinLimits, levels-Ensures}
use tool_trade.Validator.Rounding.{IsRounded, validate_confidence-Ensures}

abbrev pub AreGiven : SignalAnalysis → Prices → Type 0
AreGiven a p =
    (a.entry_price ≡ some (number p.entry))
    × (a.stop_loss ≡ some (number p.stop_loss))
    × (a.take_profit ≡ some (number p.take_profit))
    × (is_positive p.entry ≡ true)
    × (is_positive p.stop_loss ≡ true)
    × (is_positive p.take_profit ≡ true)
    × IsOrdered a.decision p.entry p.stop_loss p.take_profit

pub check_prices-Ensures : (a : SignalAnalysis) → Ensures (AreGiven a) (check_prices a)
unfolding check_prices
check_prices-Ensures a =
    let P = AreGiven a in
    Ensures-bind P (or_raise a.entry_price signal_validation) _ λ e he.
      Ensures-bind P (or_raise a.stop_loss signal_validation) _ λ s hs.
        Ensures-bind P (or_raise a.take_profit signal_validation) _ λ t ht.
          Ensures-bind P (to_decimal e) _ λ entry pe. Ensures-bind P (to_decimal s) _ λ stop ps.
            Ensures-bind P (to_decimal t) _ λ take pt.
              Ensures-bind P (validate_signal_prices a.decision entry stop take) _ λ u ordered.
                let (e', ae) = to_decimal-pos e entry pe in
                let (s', as_) = to_decimal-pos s stop ps in
                let (t', at) = to_decimal-pos t take pt in
                let ge = or_raise-eq_ok a.entry_price signal_validation e he in
                let gs = or_raise-eq_ok a.stop_loss signal_validation s hs in
                let gt = or_raise-eq_ok a.take_profit signal_validation t ht in
                (
                  cc,
                  cc,
                  cc,
                  ae,
                  as_,
                  at,
                  (validate_signal_prices_iff a.decision entry stop take).0 (cc),
                )

for_number :
    (P : Decimal → Type 0) (r rate : Decimal)
    → ◌≡◌ {A = Option Value} (some (number r)) (some (number rate))
    → P r
    → P rate
for_number P r rate e p = subst P (cc) p

-- The funding rate is not beyond the cap on the side of the decision, where there is a cap.
abbrev pub IsUncrowded : Direction → Option Value → GuardrailConfig → Type 0
IsUncrowded d funding guards =
    (rate : Decimal)
    → funding ≡ some (number rate)
    → is_positive guards.max_funding_rate ≡ true
    → is_crowded d rate guards.max_funding_rate ≡ false

abbrev pub IsWithTrend : Direction → Regime → GuardrailConfig → Type 0
IsWithTrend d regime guards = magnitude guards.htf_bias ≢ 0 → is_counter d regime ≡ false

crowd-Ensures :
    (d : Direction) (funding : Option Value) (guards : GuardrailConfig)
    → Ensures (λ _. IsUncrowded d funding guards) (validate_funding_crowd d funding guards)
unfolding validate_funding_crowd
crowd-Ensures d none guards = λ rate e. cc
crowd-Ensures d (some nan) guards = λ rate e. cc
crowd-Ensures d (some infinite) guards = λ rate e. cc
crowd-Ensures d (some malformed) guards = λ rate e. cc
crowd-Ensures d (some (number r)) guards =
    raise_if-Ensures (is_positive guards.max_funding_rate && is_crowded d r guards.max_funding_rate)
      signal_validation (IsUncrowded d (some (number r)) guards)
      λ passed rate e on.
        for_number (λ x. is_crowded d x guards.max_funding_rate ≡ false) r rate e (ground arith)

trend-Ensures :
    (d : Direction) (regime : Regime) (guards : GuardrailConfig)
    → Ensures (λ _. IsWithTrend d regime guards) (validate_htf_bias d regime guards)
unfolding validate_htf_bias
trend-Ensures d regime guards =
    raise_if-Ensures (not (magnitude guards.htf_bias == 0) && is_counter d regime) signal_validation
      (IsWithTrend d regime guards) λ passed on. ground arith

-- What the candidate of an accepted analysis is.
pub record IsTradable (guards : GuardrailConfig) (a : SignalAnalysis) (c : SignalCandidate)
    : Type 0 where
  pub prices : Prices
  pub confidence : ℤ
  pub close : Option Decimal
  pub is_candidate : c ≡ candidate a prices confidence close
  pub given : AreGiven a prices
  pub rounded : IsRounded a.confidence confidence
  pub confident : int_lt confidence guards.min_confidence ≡ false
  pub uncrowded : IsUncrowded a.decision a.funding_rate guards
  pub with_trend : IsWithTrend a.decision a.regime guards
  pub closes : on_given to_decimal a.candle_close_price ≡ ok close
  pub limits : IsWithinLimits guards (usable_atr a.atr) close prices

-- The candidate of an accepted analysis trades its decision at its three prices, which were given as
-- positive numbers in the order of the decision; its confidence is the stated one, rounded, and at least
-- the minimum; no funding cap or regime stands against it; and where the limits are on, the quotient of
-- the distances of take profit and stop loss reaches the minimum, the take profit covers the fees, and
-- with an ATR both distances and the entry are within their multiples of it.
pub validate_analysis-Ensures :
    (a : SignalAnalysis) (guards : GuardrailConfig)
    → Ensures (IsTradable guards a) (validate_analysis a guards)
unfolding validate_analysis
validate_analysis-Ensures a guards =
    let P = IsTradable guards a in
    Ensures-bind P (validate_decision a.decision) _ λ d _.
      Ensures-bind P (raise_if (is_wait d) signal_validation) _ λ _ _.
        Ensures-bind P (check_prices a) _ λ p hp.
          Ensures-bind P (validate_confidence a.confidence) _ λ n hn.
            Ensures-bind P (raise_if (int_lt n guards.min_confidence) signal_validation) _ λ _ hm.
              Ensures-bind P (validate_funding_crowd a.decision a.funding_rate guards) _ λ u hu.
                Ensures-bind P (validate_htf_bias a.decision a.regime guards) _ λ t ht.
                  Ensures-bind P (on_given to_decimal a.candle_close_price) _ λ close hc.
                    Ensures-bind P
                      (validate_trade_levels p.entry p.stop_loss p.take_profit (usable_atr a.atr)
                        close guards)
                      _
                      λ l hl. record {
                        prices = p;
                        confidence = n;
                        close = close;
                        is_candidate = refl;
                        given = Ensures-eq_ok _ (check_prices a) p (check_prices-Ensures a) hp;
                        rounded =
                            Ensures-eq_ok _ (validate_confidence a.confidence) n
                              (validate_confidence-Ensures a.confidence) hn;
                        confident = raise_if-eq-ok _ signal_validation hm;
                        uncrowded =
                            Ensures-eq_ok _ _ u (crowd-Ensures a.decision a.funding_rate guards) hu;
                        with_trend =
                            Ensures-eq_ok _ _ t (trend-Ensures a.decision a.regime guards) ht;
                        closes = hc;
                        limits =
                            Ensures-eq_ok _ _ l (levels-Ensures guards (usable_atr a.atr) close p)
                              hl;
                      }
