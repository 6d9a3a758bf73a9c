-- ===== src/Backtest/Records.antt =====
-- The records of a run, of backtest/engine.py. The fields that are set together when a position is
-- filled, and those when it is closed, are one optional record each.
use tool_trade.Common.{ℕ, Bool, Option, List}
use tool_trade.Decimal.{Decimal}
use tool_trade.Models.{Direction, Value, CloseReason, Timestamp}
use tool_trade.Market.Klines.{Candle}
use tool_trade.Text.{Text}
use tool_trade.Validator.{Confidence}

pub record DecisionRecord : Type 0 where
  pub candle_ts : Timestamp
  pub decision : Direction
  pub confidence : Confidence
  pub candle_close_price : Option Value
  pub provider : Text
  pub model : Text

-- The fields of a position that was entered.
pub record Fill : Type 0 where
  pub entry_time : Timestamp
  pub entry_price : Decimal
  pub quantity : Decimal
  pub position_size : Decimal
  pub entry_fee : Decimal
  pub risk_amount : Decimal

-- The fields of a position that was closed.
pub record Exit : Type 0 where
  pub exit_time : Timestamp
  pub exit_price : Decimal
  pub exit_fee : Decimal
  pub funding_cost : Decimal
  pub gross_pnl : Decimal
  pub net_pnl : Decimal
  pub r_multiple : Option Decimal
  pub outcome : CloseReason

-- `_ActiveSignal`
pub record ActiveSignal : Type 0 where
  pub signal_candle_ts : Timestamp
  pub decision_time : Timestamp
  pub direction : Direction
  pub entry : Decimal
  pub stop_loss : Decimal
  pub take_profit : Decimal
  pub ndx : ℕ
  pub fill : Option Fill
  pub exit : Option Exit
  pub was_ambiguous : Bool

-- A trade is the signal with its fill; the index, the levels and the times are the signal's and the
-- fill's.
pub record BacktestTrade : Type 0 where
  pub signal : ActiveSignal
  pub fill : Fill
  pub exit : Option Exit
  pub holding_time : Option ℕ

pub record PendingEvent : Type 0 where
  pub signal_candle_ts : Timestamp
  pub decision_time : Timestamp
  pub direction : Direction
  pub entry_level : Decimal
  pub stop_level : Decimal
  pub take_profit_level : Decimal
  pub entered_at : Option Timestamp
  pub closed_at : Option Timestamp
  pub outcome : Option CloseReason
  pub trade_index : ℕ

pub data AmbiguityKind : Type 0 where
  entry exit : AmbiguityKind

pub record AmbiguityEvent : Type 0 where
  pub signal_candle_ts : Timestamp
  pub minute_ts : Timestamp
  pub kind : AmbiguityKind
  pub direction : Direction

pub data BlockReason : Type 0 where
  active_signal : BlockReason
  event_blackout : Text → BlockReason

pub record BlockedEvent : Type 0 where
  pub candle_ts : Timestamp
  pub decision_time : Timestamp
  pub reason : BlockReason
  pub active_direction : Option Direction
  pub active_signal_candle_ts : Option Timestamp

pub record RejectedEvent : Type 0 where
  pub candle_ts : Timestamp
  pub decision : Direction

-- The local variables of `run`; `minutes` are the candles from `minute_idx` on.
pub record RunState : Type 0 where
  pub minutes : List Candle
  pub balance : Decimal
  pub equity_curve : List Decimal
  pub active : Option ActiveSignal
  pub trades : List BacktestTrade
  pub pending_events : List PendingEvent
  pub ambiguous_events : List AmbiguityEvent
  pub blocked_events : List BlockedEvent
  pub rejected_events : List RejectedEvent
  pub decisions : List DecisionRecord
  pub long_decisions : ℕ
  pub short_decisions : ℕ
  pub wait_count : ℕ
  pub analyzed : ℕ
  pub blocked_count : ℕ
  pub rejected_count : ℕ
  pub created_counter : ℕ
  pub entries_hit : ℕ
  pub trades_completed : ℕ
  pub entry_ambiguity_count : ℕ
  pub exit_ambiguity_count : ℕ

-- What `run` returns, besides the configuration's own fields.
pub record BacktestResult : Type 0 where
  pub eligible : ℕ
  pub long_created : ℕ
  pub short_created : ℕ
  pub open_at_end : ℕ
  pub pending_at_end : ℕ
  pub ambiguous_total : ℕ
  pub state : RunState
