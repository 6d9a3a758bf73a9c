-- ===== src/Models.antt =====
-- database/models.py: statuses, transitions and the signal record; and the conversions of
-- database/database.py from arguments to prices.
pub mod Prices
use tool_trade.Common.{
  ℕ, Bool, true, false, not, ◌&&◌, ◌||◌, Option, none, some, List, [], ◌∷◌, ltb, leb, if◌then◌else◌,
  ℤ, pos, negsuc,
}
use tool_trade.Decimal
use tool_trade.Decimal.{Decimal}
use tool_trade.Result.{Result, ok, err, ◌>>=◌, ◌>>◌, raise_if, signal_validation}
use tool_trade.Text.{Text}

-- The text of a direction or of a decision; `unknown` is any text but the three.
pub data Direction : Type 0 where
  long short wait unknown : Direction

pub data Status : Type 0 where
  pending_entry open_ tp_hit sl_hit cancelled : Status

-- What `Decimal(str(value))` makes of an argument; `malformed` is where it raises.
pub data Value : Type 0 where
  number : Decimal → Value
  nan infinite malformed : Value

-- An argument that should be an `int`: a `bool` is `not_integer` too.
pub data IntArg : Type 0 where
  integer : ℤ → IntArg
  not_integer : IntArg

-- The text of a trade's result; `other` is any text but the two.
pub data Outcome : Type 0 where
  win loss other : Outcome

pub data CloseReason : Type 0 where
  tp sl : CloseReason
  of_status : Status → CloseReason
  custom : Text → CloseReason

-- Milliseconds since the epoch, for an ISO-8601 text.
abbrev pub Timestamp : Type 0
Timestamp = ℕ

abbrev pub status_eq : Status → Status → Bool
status_eq pending_entry pending_entry = true
status_eq open_ open_ = true
status_eq tp_hit tp_hit = true
status_eq sl_hit sl_hit = true
status_eq cancelled cancelled = true
status_eq _ _ = false

-- `status in ACTIVE_STATUSES`
abbrev pub is_active : Status → Bool
is_active pending_entry = true
is_active open_ = true
is_active tp_hit = false
is_active sl_hit = false
is_active cancelled = false

-- `new_status in ALLOWED_TRANSITIONS[current]`
abbrev pub allowed_transition : Status → Status → Bool
allowed_transition pending_entry open_ = true
allowed_transition pending_entry cancelled = true
allowed_transition open_ tp_hit = true
allowed_transition open_ sl_hit = true
allowed_transition open_ cancelled = true
allowed_transition _ _ = false

-- `direction in DIRECTIONS`
abbrev pub is_direction : Direction → Bool
is_direction long = true
is_direction short = true
is_direction wait = false
is_direction unknown = false

-- The audit metadata of a signal, never read by the lifecycle.
pub record Metadata : Type 0 where
  pub confidence : Option ℤ
  pub risk_reward : Option Decimal
  pub rationale : Option Text
  pub provider : Option Text
  pub model_name : Option Text
  pub temperature : Option Decimal
  pub strategy_name : Option Text
  pub strategy_version : Option Text
  pub analysis_timestamp : Option Text
  pub market_timestamp : Option Text
  pub candle_close_price : Option Decimal

pub record Signal : Type 0 where
  pub id : ℕ
  pub symbol : Text
  pub timeframe : Text
  pub direction : Direction
  pub status : Status
  pub entry : Decimal
  pub stop_loss : Decimal
  pub take_profit : Decimal
  pub created_at : Timestamp
  pub opened_at : Option Timestamp
  pub closed_at : Option Timestamp
  pub close_price : Option Decimal
  pub close_reason : Option CloseReason
  pub result : Option Outcome
  pub meta : Metadata

-- A positive finite decimal, or an error.
unfoldable pub to_decimal : Value → Result Decimal
to_decimal (number d) = if Decimal.le d (Decimal.of_ℕ 0) then err signal_validation else ok d
to_decimal nan = err signal_validation
to_decimal infinite = err signal_validation
to_decimal malformed = err signal_validation

-- A finite decimal, or an error.
unfoldable pub to_decimal_signed : Value → Result Decimal
to_decimal_signed (number d) = ok d
to_decimal_signed nan = err signal_validation
to_decimal_signed infinite = err signal_validation
to_decimal_signed malformed = err signal_validation

-- The number is kept as it is given; its rounding to a `float` is not modelled.
unfoldable pub temperature_to_text : Option Value → Result (Option Decimal)
temperature_to_text none = ok none
temperature_to_text (some (number d)) = do
  raise_if (Decimal.lt d (Decimal.of_ℕ 0) || Decimal.lt (Decimal.of_ℕ 5) d) signal_validation
  ok (some d)
temperature_to_text (some _) = err signal_validation

unfoldable pub validate_signal_prices : Direction → Decimal → Decimal → Decimal → Result (Unit {0})
validate_signal_prices long entry stop_loss take_profit =
    raise_if (not (Decimal.lt stop_loss entry && Decimal.lt entry take_profit)) signal_validation
validate_signal_prices short entry stop_loss take_profit =
    raise_if (not (Decimal.lt take_profit entry && Decimal.lt entry stop_loss)) signal_validation
validate_signal_prices wait entry stop_loss take_profit = err signal_validation
validate_signal_prices unknown entry stop_loss take_profit = err signal_validation
