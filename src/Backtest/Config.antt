-- ===== src/Backtest/Config.antt =====
-- backtest/config.py: the parameters of a run. Numbers are decimals already, as the fields' types say.
use tool_trade.Common.{ℕ, List, [], ◌∷◌, ltb, if◌then◌else◌, pos}
use tool_trade.Decimal
use tool_trade.Decimal.{Decimal}
use tool_trade.Market.{validate_symbol, validate_interval}
use tool_trade.Models.{IntArg, integer, Timestamp}
use tool_trade.Result.{Result, ok, err, ◌>>=◌, ◌>>◌, raise_if, reraise, backtest_config}
use tool_trade.Text.{Text, codes, text_eq}

pub record BacktestConfig : Type 0 where
  pub symbol : Text
  pub timeframe : Text
  pub execution_interval : Text
  pub initial_balance : Decimal
  pub margin_per_trade : Decimal
  pub leverage : IntArg
  pub risk_percent : Decimal
  pub fee_rate : Decimal
  pub slippage_bps : Decimal
  -- Empty where funding is off.
  pub funding_rates : List (Timestamp × Decimal)
  pub min_candles : ℕ
  pub max_candles : ℕ

-- `INTERVAL_MS_BY_INTERVAL`
abbrev pub interval_table : List (Text × ℕ)
interval_table =
    (codes "1m", 60_000)
    ∷ (codes "5m", 300_000)
    ∷ (codes "15m", 900_000)
    ∷ (codes "1h", 3_600_000)
    ∷ (codes "4h", 14_400_000)
    ∷ []

abbrev pub lookup_interval : Text → List (Text × ℕ) → Result ℕ
lookup_interval t [] = err backtest_config
lookup_interval t ((name, ms) ∷ rest) = if text_eq name t then ok ms else lookup_interval t rest

unfoldable pub interval_to_ms : Text → Result ℕ
interval_to_ms interval = do
  name ← reraise (validate_interval interval) backtest_config
  lookup_interval name interval_table

-- `_positive` and `_nonnegative` of a decimal.
abbrev pub check_positive : Decimal → Result (Unit {0})
check_positive d = raise_if (Decimal.le d (Decimal.of_ℕ 0)) backtest_config

abbrev pub check_nonnegative : Decimal → Result (Unit {0})
check_nonnegative d = raise_if (Decimal.lt d (Decimal.of_ℕ 0)) backtest_config

abbrev check_leverage : IntArg → Result (Unit {0})
check_leverage (integer (pos n)) = raise_if (ltb n 1) backtest_config
check_leverage _ = err backtest_config

abbrev pub check_rates : List (Timestamp × Decimal) → Result (Unit {0})
check_rates [] = ok tt
check_rates ((_, rate) ∷ rest) = check_nonnegative rate >>= λ _. check_rates rest

pub validate_config : BacktestConfig → Result (Unit {0})
unfolding interval_to_ms
validate_config c = do
  _ ← reraise (validate_symbol c.symbol) backtest_config
  _ ← interval_to_ms c.timeframe
  _ ← interval_to_ms c.execution_interval
  check_positive c.initial_balance
  check_positive c.margin_per_trade
  check_positive c.risk_percent
  check_leverage c.leverage
  check_nonnegative c.fee_rate
  raise_if (Decimal.le (Decimal.of_ℕ 1) c.fee_rate) backtest_config
  check_nonnegative c.slippage_bps
  raise_if (ltb c.min_candles 1) backtest_config
  raise_if (ltb c.max_candles 1) backtest_config
  check_rates c.funding_rates

-- `BacktestConfig(…)`: the normalised symbol and intervals, then the checks.
unfoldable make_config : BacktestConfig → Result BacktestConfig
unfolding validate_config
make_config c = do
  symbol ← reraise (validate_symbol c.symbol) backtest_config
  timeframe ← reraise (validate_interval c.timeframe) backtest_config
  execution ← reraise (validate_interval c.execution_interval) backtest_config
  check_rates c.funding_rates
  let config = record c { symbol = symbol; timeframe = timeframe; execution_interval = execution }
  validate_config config
  ok config
