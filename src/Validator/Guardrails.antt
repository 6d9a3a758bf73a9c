-- ===== src/Validator/Guardrails.antt =====
-- `GuardrailConfig` of signal_engine/validator.py: the tunable limits of a trade, from the settings
-- that are stored, then from the environment, then by default.
use tool_trade.Common.{Option, none, some, ℤ, pos}
use tool_trade.Decimal
use tool_trade.Decimal.{Decimal}
use tool_trade.Models.{Value, number}

-- What a source holds under a key: nothing, a text that does not parse, or what it parses to.
pub data Reading {ℓ} (A : Type ℓ) : Type ℓ where
  absent unreadable : Reading A
  parsed : A → Reading A

-- The texts under the keys that the guardrails read. A NaN or an infinity parses as a number.
pub record Source : Type 0 where
  pub min_confidence : Reading ℤ
  pub min_risk_reward : Reading Value
  pub fee_rate : Reading Value
  pub pending_expiry_hours : Reading Value
  pub max_funding_rate : Reading Value
  pub htf_bias : Reading ℤ

pub record GuardrailConfig : Type 0 where
  pub min_confidence : ℤ
  pub min_risk_reward : Decimal
  pub fee_rate : Decimal
  pub pending_expiry_hours : Decimal
  pub max_funding_rate : Decimal
  pub htf_bias : ℤ

-- `_env_int`
abbrev pub env_int : Reading ℤ → ℤ → ℤ
env_int absent fallback = fallback
env_int unreadable fallback = fallback
env_int (parsed n) fallback = n

-- `_env_decimal`, and `_env_float` for the hours.
abbrev pub env_decimal : Reading Value → Decimal → Decimal
env_decimal (parsed (number d)) fallback = d
env_decimal _ fallback = fallback

abbrev pub defaults : GuardrailConfig
defaults = record {
  min_confidence = pos 60;
  min_risk_reward = Decimal.literal 12 1;
  fee_rate = Decimal.literal 4 4;
  pending_expiry_hours = Decimal.of_ℕ 6;
  max_funding_rate = Decimal.literal 5 4;
  htf_bias = pos 1;
}

-- The settings of the source over those of the base.
abbrev pub overlay : Source → GuardrailConfig → GuardrailConfig
overlay s base = record {
  min_confidence = env_int s.min_confidence base.min_confidence;
  min_risk_reward = env_decimal s.min_risk_reward base.min_risk_reward;
  fee_rate = env_decimal s.fee_rate base.fee_rate;
  pending_expiry_hours = env_decimal s.pending_expiry_hours base.pending_expiry_hours;
  max_funding_rate = env_decimal s.max_funding_rate base.max_funding_rate;
  htf_bias = env_int s.htf_bias base.htf_bias;
}

unfoldable pub from_env : Source → GuardrailConfig
from_env env = overlay env defaults

-- `none` is no stored document, an empty one, or one that is not a mapping.
unfoldable pub from_stored : Option Source → Source → GuardrailConfig
unfolding from_env
from_stored none env = from_env env
from_stored (some stored) env = overlay stored (from_env env)
