-- ===== src/Demo/Account.antt =====
-- demo/account.py: the demo configuration and the formulas of the ledger.
pub mod Arguments
pub mod Sizing
pub mod Pnl
pub mod Equity
use tool_trade.Common.{
  ℕ, Bool, true, false, not, ◌&&◌, ◌||◌, Option, none, some, ltb, leb, if◌then◌else◌, ℤ, pos,
  negsuc,
}
use tool_trade.Decimal
use tool_trade.Decimal.{Decimal}
use tool_trade.Models.{
  Direction, long, short, wait, unknown, is_direction, Value, number, IntArg, integer, not_integer,
}
use tool_trade.Result.{
  Result, ok, err, ◌>>=◌, ◌>>◌, raise_if, or_raise, reraise, demo_calculation, demo_config,
  division_by_zero,
}

-- `_to_decimal_api`
abbrev pub to_decimal_api : Value → Result Decimal
to_decimal_api (number d) = ok d
to_decimal_api _ = err demo_calculation

unfoldable pub require_positive : Value → Result Decimal
require_positive value = do
  d ← to_decimal_api value
  raise_if (Decimal.le d (Decimal.of_ℕ 0)) demo_calculation
  ok d

unfoldable pub require_nonnegative : Value → Result Decimal
require_nonnegative value = do
  d ← to_decimal_api value
  raise_if (Decimal.lt d (Decimal.of_ℕ 0)) demo_calculation
  ok d

abbrev pub validate_direction : Direction → Result (Unit {0})
validate_direction d = raise_if (not (is_direction d)) demo_calculation

abbrev pub require_positive_leverage : IntArg → Result ℕ
require_positive_leverage (integer (pos n)) = if ltb n 1 then err demo_config else ok n
require_positive_leverage (integer (negsuc _)) = err demo_config
require_positive_leverage not_integer = err demo_config

pub record DemoConfig : Type 0 where
  pub initial_balance : Value
  pub margin_per_trade : Value
  pub leverage : IntArg
  pub risk_percent : Value
  pub fee_rate : Value
  pub slippage_bps : Value

unfoldable validate_config : DemoConfig → Result (Unit {0})
validate_config config = do
  _ ← reraise (require_positive config.initial_balance) demo_config
  _ ← reraise (require_positive config.margin_per_trade) demo_config
  _ ← require_positive_leverage config.leverage
  _ ← reraise (require_positive config.risk_percent) demo_config
  fee_rate ← reraise (require_nonnegative config.fee_rate) demo_config
  raise_if (Decimal.le (Decimal.of_ℕ 1) fee_rate) demo_config
  _ ← reraise (require_nonnegative config.slippage_bps) demo_config
  ok tt

-- `a / b`, which raises on a zero divisor.
abbrev pub divide : Decimal → Decimal → Result Decimal
divide a b = or_raise (Decimal.div a b) division_by_zero

unfoldable fee_rate_from_percent : Value → Result Decimal
fee_rate_from_percent percent = to_decimal_api percent >>= λ p. divide p (Decimal.of_ℕ 100)

unfoldable fee_rate_to_percent : Value → Result Decimal
fee_rate_to_percent fee_rate =
    require_nonnegative fee_rate >>= λ rate. ok (Decimal.mul rate (Decimal.of_ℕ 100))

unfoldable pub risk_amount : Value → Value → Result Decimal
risk_amount balance risk_percent = do
  balance_value ← require_positive balance
  percent ← require_positive risk_percent
  divide (Decimal.mul balance_value percent) (Decimal.of_ℕ 100)

abbrev pub position_size : Value → IntArg → Result Decimal
position_size margin_per_trade leverage = do
  margin ← require_positive margin_per_trade
  multiplier ← require_positive_leverage leverage
  ok (Decimal.mul margin (Decimal.of_ℕ multiplier))

unfoldable pub position_quantity : Value → Value → Result Decimal
position_quantity position_notional entry_price = do
  notional ← require_positive position_notional
  entry ← require_positive entry_price
  divide notional entry

-- The rule that bound a quantity.
pub data SizingRule : Type 0 where
  margin risk : SizingRule

-- The smaller of the two quantities; a tie is the margin's.
abbrev pub smaller : Decimal → Decimal → Decimal × SizingRule
smaller qty_margin qty_risk =
    if Decimal.lt qty_risk qty_margin then (qty_risk, risk) else (qty_margin, margin)

unfoldable pub resolve_quantity :
    Value → Value → IntArg → Value → Value → Value → Result (Decimal × SizingRule)
resolve_quantity balance margin_per_trade leverage risk_percent entry_price stop_loss = do
  balance_value ← require_positive balance
  entry ← require_positive entry_price
  stop ← require_positive stop_loss
  let sl_dist = Decimal.abs (Decimal.sub entry stop)
  raise_if (Decimal.le sl_dist (Decimal.of_ℕ 0)) demo_calculation
  notional ← position_size margin_per_trade leverage
  qty_margin ← position_quantity (number notional) (number entry)
  amount ← risk_amount (number balance_value) risk_percent
  qty_risk ← divide amount sl_dist
  ok (smaller qty_margin qty_risk)

-- The signed move of the price in the position's favour.
abbrev pub favourable_move : Direction → Decimal → Decimal → Decimal
favourable_move long entry exit_value = Decimal.sub exit_value entry
favourable_move _ entry exit_value = Decimal.sub entry exit_value

unfoldable pub gross_pnl : Direction → Value → Value → Value → Result Decimal
gross_pnl direction entry_price exit_price quantity = do
  validate_direction direction
  entry ← require_positive entry_price
  exit_value ← require_positive exit_price
  qty ← require_positive quantity
  ok (Decimal.mul (favourable_move direction entry exit_value) qty)

unfoldable pub entry_fee : Value → Value → Result Decimal
entry_fee position_notional fee_rate = do
  notional ← require_positive position_notional
  rate ← require_nonnegative fee_rate
  ok (Decimal.mul notional rate)

unfoldable pub exit_fee : Value → Value → Value → Result Decimal
exit_fee exit_price quantity fee_rate = do
  exit_value ← require_positive exit_price
  qty ← require_positive quantity
  rate ← require_nonnegative fee_rate
  ok (Decimal.mul (Decimal.mul exit_value qty) rate)

-- Whether a fill is against a rising price: a LONG entry or a SHORT exit.
abbrev pub pays_up : Direction → Bool → Bool
pays_up long entering = entering
pays_up _ entering = not entering

abbrev pub slipped : Bool → Decimal → Decimal
slipped true slip = Decimal.add (Decimal.of_ℕ 1) slip
slipped false slip = Decimal.sub (Decimal.of_ℕ 1) slip

-- The factor for a setting other than 0.
abbrev pub slipped_by : Decimal → Direction → Bool → Result Decimal
slipped_by bps direction entering = do
  validate_direction direction
  slip ← divide bps (Decimal.of_ℕ 10000)
  ok (slipped (pays_up direction entering) slip)

unfoldable pub slippage_factor : Value → Direction → Bool → Result Decimal
slippage_factor slippage_bps direction entering = do
  bps ← require_nonnegative slippage_bps
  if Decimal.eq bps (Decimal.of_ℕ 0) then ok (Decimal.of_ℕ 1) else slipped_by bps direction entering

unfoldable pub total_fee : Value → Value → Value → Value → Result Decimal
unfolding entry_fee exit_fee
total_fee position_notional exit_price quantity fee_rate = do
  entry ← entry_fee position_notional fee_rate
  exit_value ← exit_fee exit_price quantity fee_rate
  ok (Decimal.add entry exit_value)

unfoldable pub net_pnl : Direction → Value → Value → Value → Value → Value → Result Decimal
unfolding gross_pnl total_fee
net_pnl direction entry_price exit_price quantity position_notional fee_rate = do
  gross ← gross_pnl direction entry_price exit_price quantity
  fees ← total_fee position_notional exit_price quantity fee_rate
  ok (Decimal.sub gross fees)

unfoldable balance_after_close :
    Value → Direction → Value → Value → Value → Value → Value → Result Decimal
unfolding net_pnl
balance_after_close balance direction entry_price exit_price quantity position_notional fee_rate =
    do
      available ← require_nonnegative balance
      net ← net_pnl direction entry_price exit_price quantity position_notional fee_rate
      ok (Decimal.add available net)

pub update_peak_equity : Value → Value → Result Decimal
update_peak_equity peak_equity equity_value = do
  peak ← require_nonnegative peak_equity
  value ← require_nonnegative equity_value
  ok (if Decimal.lt peak value then value else peak)

pub current_drawdown : Value → Value → Result Decimal
current_drawdown peak_equity equity_value = do
  peak ← require_nonnegative peak_equity
  value ← require_nonnegative equity_value
  let loss = Decimal.sub peak value
  ok (if Decimal.lt (Decimal.of_ℕ 0) loss then loss else Decimal.of_ℕ 0)
