-- ===== src/Validator.antt =====
-- signal_engine/validator.py: the checks between the language model's analysis and the repository. A
-- `float` of the analysis is the exact decimal of its text, as `Decimal(str(value))` reads it.
pub mod Guardrails
pub mod Rounding
pub mod Distances
pub mod Limits
pub mod Accepted
pub mod Refused
mod Tests
use tool_trade.Common.{
  ℕ, ◌+◌, ◌*◌, ◌/◌, ◌%◌, ◌^◌, Bool, true, false, not, ◌&&◌, ◌||◌, Option, none, some, ltb, leb,
  ◌==◌, if◌then◌else◌, ℤ, pos, negsuc, pos_part, neg_part, magnitude, with_magnitude,
}
use tool_trade.Decimal
use tool_trade.Decimal.{Decimal}
use tool_trade.Models.{
  Direction, long, short, wait, unknown, Value, number, nan, infinite, malformed, to_decimal,
  validate_signal_prices,
}
use tool_trade.Result.{
  Result, ok, err, ◌>>=◌, ◌>>◌, raise_if, or_raise, on_given, signal_validation, division_by_zero,
}
use tool_trade.Text.{Text}
use Guardrails.{GuardrailConfig}

-- The regime of the higher timeframe; `unclear` is any other text, or none.
pub data Regime : Type 0 where
  up down unclear : Regime

-- The confidence of an analysis.
pub data Confidence : Type 0 where
  missing flag : Confidence
  stated : Value → Confidence

pub record SignalAnalysis : Type 0 where
  pub decision : Direction
  pub confidence : Confidence
  pub reasoning : Text
  pub entry_price : Option Value
  pub stop_loss : Option Value
  pub take_profit : Option Value
  pub provider : Text
  pub model : Text
  pub symbol : Text
  pub timeframe : Text
  pub analysis_timestamp : Text
  pub market_timestamp : Text
  pub candle_close_price : Option Value
  pub temperature : Option Value
  pub atr : Option Value
  pub funding_rate : Option Value
  pub regime : Regime

pub record SignalCandidate : Type 0 where
  pub decision : Direction
  pub entry : Decimal
  pub stop_loss : Decimal
  pub take_profit : Decimal
  pub confidence : ℤ
  pub reasoning : Text
  pub provider : Text
  pub model_name : Text
  pub temperature : Option Value
  pub symbol : Text
  pub timeframe : Text
  pub analysis_timestamp : Text
  pub market_timestamp : Text
  pub candle_close_price : Option Decimal

abbrev pub zero_decimal : Decimal
zero_decimal = Decimal.of_ℕ 0

abbrev pub is_positive : Decimal → Bool
is_positive d = Decimal.lt zero_decimal d

unfoldable pub validate_decision : Direction → Result Direction
validate_decision unknown = err signal_validation
validate_decision d = ok d

-- `a < b` of integers.
abbrev pub int_lt : ℤ → ℤ → Bool
int_lt a b = ltb (pos_part a + neg_part b) (neg_part a + pos_part b)

-- m / 10 ^ k to the nearest integer, a half rounded up.
abbrev pub half_up : ℕ → ℕ → ℕ
half_up m k = let unit = 10 ^ k in if leb unit (2 * (m % unit)) then m / unit + 1 else m / unit

-- `int(d.to_integral_value(rounding=ROUND_HALF_UP))`
abbrev pub to_integral : ℤ → ℤ → ℤ
to_integral c (pos e) = with_magnitude c (magnitude c * 10 ^ e)
to_integral c (negsuc k) = with_magnitude c (half_up (magnitude c) (k + 1))

unfoldable pub validate_confidence : Confidence → Result ℤ
validate_confidence (stated (number d)) = do
  raise_if (Decimal.lt d zero_decimal || Decimal.lt (Decimal.of_ℕ 100) d) signal_validation
  ok (to_integral d.coeff d.exp)
validate_confidence _ = err signal_validation

-- Whether the funding rate is beyond the cap on the side that the decision leans to.
abbrev pub is_crowded : Direction → Decimal → Decimal → Bool
is_crowded long rate cap = Decimal.lt cap rate
is_crowded short rate cap = Decimal.lt rate (Decimal.neg cap)
is_crowded _ rate cap = false

unfoldable pub validate_funding_crowd :
    Direction → Option Value → GuardrailConfig → Result (Unit {0})
validate_funding_crowd decision (some (number rate)) guards =
    raise_if
      (is_positive guards.max_funding_rate && is_crowded decision rate guards.max_funding_rate)
      signal_validation
validate_funding_crowd decision _ guards = ok tt

-- Whether the regime is against the decision.
abbrev pub is_counter : Direction → Regime → Bool
is_counter long down = true
is_counter short up = true
is_counter _ _ = false

unfoldable pub validate_htf_bias : Direction → Regime → GuardrailConfig → Result (Unit {0})
validate_htf_bias decision regime guards =
    raise_if (not (magnitude guards.htf_bias == 0) && is_counter decision regime) signal_validation

-- The distance between two prices.
abbrev pub distance : Decimal → Decimal → Decimal
distance a b = Decimal.abs (Decimal.sub a b)

unfoldable pub check_risk_reward : GuardrailConfig → Decimal → Decimal → Result (Unit {0})
check_risk_reward guards sl_dist tp_dist =
    if is_positive guards.min_risk_reward
    then (or_raise (Decimal.div tp_dist sl_dist) division_by_zero >>= λ ratio.
        raise_if (Decimal.lt ratio guards.min_risk_reward) signal_validation)
    else ok tt

-- The least distance of the take profit: the fees of both sides.
abbrev pub fee_cover : GuardrailConfig → Decimal → Decimal
fee_cover guards entry = Decimal.mul (Decimal.mul entry guards.fee_rate) (Decimal.of_ℕ 2)

unfoldable pub check_fee_cover : GuardrailConfig → Decimal → Decimal → Result (Unit {0})
check_fee_cover guards entry tp_dist =
    raise_if (is_positive guards.fee_rate && Decimal.lt tp_dist (fee_cover guards entry))
      signal_validation

-- `low * atr <= dist <= high * atr`
abbrev pub is_within : Decimal → Decimal → Decimal → Decimal → Bool
is_within low high atr dist =
    Decimal.le (Decimal.mul low atr) dist && Decimal.le dist (Decimal.mul high atr)

-- Whether the entry is further from the last close than the ATR allows.
abbrev pub is_stale : Decimal → Decimal → Option Decimal → Bool
is_stale atr entry none = false
is_stale atr entry (some close) =
    Decimal.lt (Decimal.mul (Decimal.literal 15 1) atr) (distance entry close)

-- Both distances within their multiples of the ATR, and the entry not stale.
unfoldable pub check_bounds :
    Decimal → Decimal → Option Decimal → Decimal → Decimal → Result (Unit {0})
check_bounds atr entry close sl_dist tp_dist = do
  raise_if (not (is_within (Decimal.literal 5 1) (Decimal.of_ℕ 5) atr sl_dist)) signal_validation
  raise_if (not (is_within (Decimal.literal 5 1) (Decimal.of_ℕ 8) atr tp_dist)) signal_validation
  raise_if (is_stale atr entry close) signal_validation

unfoldable pub check_atr :
    Option Decimal → Decimal → Option Decimal → Decimal → Decimal → Result (Unit {0})
unfolding check_bounds
check_atr none entry close sl_dist tp_dist = ok tt
check_atr (some atr) entry close sl_dist tp_dist =
    if is_positive atr then check_bounds atr entry close sl_dist tp_dist else ok tt

unfoldable pub validate_trade_levels :
    Decimal
    → Decimal
    → Decimal
    → Option Decimal
    → Option Decimal
    → GuardrailConfig
    → Result (Unit {0})
validate_trade_levels entry stop_loss take_profit atr close guards = do
  check_risk_reward guards (distance entry stop_loss) (distance take_profit entry)
  check_fee_cover guards entry (distance take_profit entry)
  check_atr atr entry close (distance entry stop_loss) (distance take_profit entry)

-- The ATR that the bounds use: one that is a positive number.
abbrev pub usable_atr : Option Value → Option Decimal
usable_atr (some (number d)) = if is_positive d then some d else none
usable_atr _ = none

pub record Prices : Type 0 where
  pub entry : Decimal
  pub stop_loss : Decimal
  pub take_profit : Decimal

-- The three prices, which must be there, and their order.
unfoldable pub check_prices : SignalAnalysis → Result Prices
check_prices a = do
  entry_value ← or_raise a.entry_price signal_validation
  stop_value ← or_raise a.stop_loss signal_validation
  take_value ← or_raise a.take_profit signal_validation
  entry ← to_decimal entry_value
  stop_loss ← to_decimal stop_value
  take_profit ← to_decimal take_value
  validate_signal_prices a.decision entry stop_loss take_profit
  ok (record { entry = entry; stop_loss = stop_loss; take_profit = take_profit })

abbrev pub is_wait : Direction → Bool
is_wait wait = true
is_wait _ = false

abbrev pub candidate : SignalAnalysis → Prices → ℤ → Option Decimal → SignalCandidate
candidate a prices confidence close = record {
  decision = a.decision;
  entry = prices.entry;
  stop_loss = prices.stop_loss;
  take_profit = prices.take_profit;
  confidence = confidence;
  reasoning = a.reasoning;
  provider = a.provider;
  model_name = a.model;
  temperature = a.temperature;
  symbol = a.symbol;
  timeframe = a.timeframe;
  analysis_timestamp = a.analysis_timestamp;
  market_timestamp = a.market_timestamp;
  candle_close_price = close;
}

unfoldable pub validate_analysis : SignalAnalysis → GuardrailConfig → Result SignalCandidate
validate_analysis a guards = do
  decision ← validate_decision a.decision
  raise_if (is_wait decision) signal_validation
  prices ← check_prices a
  confidence ← validate_confidence a.confidence
  raise_if (int_lt confidence guards.min_confidence) signal_validation
  validate_funding_crowd a.decision a.funding_rate guards
  validate_htf_bias a.decision a.regime guards
  close ← on_given to_decimal a.candle_close_price
  validate_trade_levels prices.entry prices.stop_loss prices.take_profit (usable_atr a.atr) close
      guards
  ok (candidate a prices confidence close)
