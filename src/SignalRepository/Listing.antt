-- ===== src/SignalRepository/Listing.antt =====
-- `list_signals`, in the order of ids.
use tool_trade.Common.{
  ℤ, pos, negsuc, magnitude, Bool, true, false, not, ◌&&◌, ◌||◌, Option, none, some, List, reverse,
  select, take, drop, leb, if◌then◌else◌,
}
use tool_trade.Market.{validate_symbol, validate_interval}
use tool_trade.Models.{Direction, long, short, is_direction, Status, status_eq, Timestamp, Signal}
use tool_trade.Result.{Result, ok, err, ◌>>=◌, ◌>>◌, raise_if, on_given, signal_validation}
use tool_trade.Store.{Action}
use tool_trade.Text.{Text, text_eq}

-- The keyword arguments; `order_by` is left at the id. A status is one of `STATUSES`.
pub record Listing : Type 0 where
  pub status : Option Status
  pub symbol : Option Text
  pub timeframe : Option Text
  pub direction : Option Direction
  pub created_since : Option Timestamp
  pub created_until : Option Timestamp
  pub limit : ℤ
  pub offset : ℤ
  pub desc : Bool

-- The defaults of the arguments.
abbrev pub all_signals : Listing
all_signals = record {
  status = none;
  symbol = none;
  timeframe = none;
  direction = none;
  created_since = none;
  created_until = none;
  limit = pos 100;
  offset = pos 0;
  desc = true;
}

abbrev is_negative : ℤ → Bool
is_negative (pos n) = false
is_negative (negsuc n) = true

-- A column's test, where its argument is given.
abbrev given_eq {ℓ} : {A : Type ℓ} → (A → A → Bool) → Option A → A → Bool
given_eq same none a = true
given_eq same (some wanted) a = same a wanted

abbrev direction_eq : Direction → Direction → Bool
direction_eq long long = true
direction_eq short short = true
direction_eq _ _ = false

abbrev at_least : Timestamp → Timestamp → Bool
at_least t bound = leb bound t

-- The WHERE clauses.
abbrev pub matches : Listing → Option Text → Option Text → Signal → Bool
matches l symbol timeframe s =
    given_eq status_eq l.status s.status
    && given_eq text_eq symbol s.symbol
    && given_eq text_eq timeframe s.timeframe
    && given_eq direction_eq l.direction s.direction
    && given_eq at_least l.created_since s.created_at
    && given_eq leb l.created_until s.created_at

-- ORDER BY id, then LIMIT and OFFSET.
abbrev pub page {ℓ} : {A : Type ℓ} → Listing → List A → List A
page l rows =
    take (magnitude l.limit) (drop (magnitude l.offset) (if l.desc then reverse rows else rows))

abbrev check_direction : Option Direction → Result (Unit {0})
check_direction none = ok tt
check_direction (some d) = raise_if (not (is_direction d)) signal_validation

check_listing : Listing → Result (Option Text × Option Text)
check_listing l = do
  raise_if (is_negative l.limit || is_negative l.offset) signal_validation
  symbol ← on_given validate_symbol l.symbol
  timeframe ← on_given validate_interval l.timeframe
  check_direction l.direction
  ok (symbol, timeframe)

rows_of : Listing → Result (Option Text × Option Text) → Action (List Signal)
rows_of l (err e) db = (err e, db)
rows_of l (ok (symbol, timeframe)) db =
    (ok (page l (select (matches l symbol timeframe) db.signals)), db)

unfoldable pub list_signals : Listing → Action (List Signal)
unfolding check_listing rows_of
list_signals l db = rows_of l (check_listing l) db
