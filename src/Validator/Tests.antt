-- ===== src/Validator/Tests.antt =====
-- Runs of the validator, and its theorems at them.
use tool_trade.Common.{◌≡◌, refl, true, pos, digits, ◌+ℤ◌, ◌-ℤ◌, ◌*ℤ◌}
use tool_trade.Decimal
use tool_trade.Models.{number, to_decimal, validate_signal_prices}
use tool_trade.Result.{ok, err, is_ok, Ensures, RaisesOnly, signal_validation}
use tool_trade.Samples.{sample_analysis}
use tool_trade.Validator.{
  SignalAnalysis, stated, down, validate_decision, validate_confidence, validate_funding_crowd,
  validate_htf_bias, check_risk_reward, check_fee_cover, check_atr, check_bounds,
  validate_trade_levels, check_prices, validate_analysis,
}
use tool_trade.Validator.Guardrails.{defaults}
use tool_trade.Validator.Rounding.{IsRounded, validate_confidence-Ensures}
use tool_trade.Validator.Accepted.{IsTradable, validate_analysis-Ensures}
use tool_trade.Validator.Refused.{validate_analysis-Refuses}

accepted : is_ok (validate_analysis sample_analysis defaults) ≡ true
unfolding validate_analysis validate_decision check_prices to_decimal validate_signal_prices
    validate_confidence validate_funding_crowd validate_htf_bias validate_trade_levels
    check_risk_reward check_fee_cover check_atr check_bounds Decimal.le Decimal.sub Decimal.mul
    Decimal.div Decimal.fix Decimal.quotient digits ◌+ℤ◌ ◌-ℤ◌ ◌*ℤ◌
accepted = refl

rounded_up : validate_confidence (stated (number (Decimal.literal 725 1))) ≡ ok (pos 73)
unfolding validate_confidence Decimal.le ◌*ℤ◌
rounded_up = refl

-- Against the trend.
abbrev counter : SignalAnalysis
counter = record sample_analysis { regime = down }

refused : validate_analysis counter defaults ≡ err signal_validation
unfolding validate_analysis validate_decision check_prices to_decimal validate_signal_prices
    validate_confidence validate_funding_crowd validate_htf_bias Decimal.le ◌*ℤ◌
refused = refl

validate_confidence-Ensures_example :
    Ensures
      (IsRounded (stated (number (Decimal.literal 725 1))))
      (validate_confidence (stated (number (Decimal.literal 725 1))))
validate_confidence-Ensures_example =
    validate_confidence-Ensures (stated (number (Decimal.literal 725 1)))

validate_analysis-Ensures_example :
    Ensures (IsTradable defaults sample_analysis) (validate_analysis sample_analysis defaults)
validate_analysis-Ensures_example = validate_analysis-Ensures sample_analysis defaults

validate_analysis-Refuses_example :
    RaisesOnly signal_validation (validate_analysis counter defaults)
validate_analysis-Refuses_example = validate_analysis-Refuses counter defaults
