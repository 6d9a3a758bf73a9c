-- ===== src/Samples.antt =====
-- Data for the tests: a LONG signal of BTCUSDT, its calls, and tables with it.
use tool_trade.Common.{none, some, [], ◌∷◌, pos}
use tool_trade.Decimal
use tool_trade.Decimal.{Decimal}
use tool_trade.Models.{long, pending_entry, open_, tp_hit, number, integer, Metadata, Signal}
use tool_trade.Store
use tool_trade.Store.{Db, Account, Position, empty_db}
use tool_trade.Text.{codes}
use tool_trade.SignalRepository.Types.{NewSignal}
use tool_trade.Validator.{up, stated, SignalAnalysis}

abbrev pub sample_new : NewSignal
sample_new = record {
  symbol = codes " btcusdt ";
  timeframe = codes "1h";
  direction = long;
  entry = number (Decimal.of_ℕ 100);
  stop_loss = number (Decimal.of_ℕ 95);
  take_profit = number (Decimal.of_ℕ 110);
  confidence = some (integer (pos 80));
  risk_reward = none;
  rationale = none;
  provider = none;
  model_name = none;
  temperature = none;
  strategy_name = none;
  strategy_version = none;
  created_at = none;
  opened_at = none;
  analysis_timestamp = none;
  market_timestamp = none;
  candle_close_price = none;
}

abbrev pub no_metadata : Metadata
no_metadata = record {
  confidence = none;
  risk_reward = none;
  rationale = none;
  provider = none;
  model_name = none;
  temperature = none;
  strategy_name = none;
  strategy_version = none;
  analysis_timestamp = none;
  market_timestamp = none;
  candle_close_price = none;
}

abbrev pub sample_signal : Signal
sample_signal = record {
  id = 1;
  symbol = codes "BTCUSDT";
  timeframe = codes "1h";
  direction = long;
  status = open_;
  entry = Decimal.of_ℕ 100;
  stop_loss = Decimal.of_ℕ 95;
  take_profit = Decimal.of_ℕ 110;
  created_at = 1;
  opened_at = some 2;
  closed_at = none;
  close_price = none;
  close_reason = none;
  result = none;
  meta = no_metadata;
}

abbrev pub pending_signal : Signal
pending_signal = record sample_signal { id = 2; status = pending_entry; opened_at = none }

abbrev pub sample_account : Account
sample_account = record {
  id = 1;
  name = codes "demo";
  initial_balance = Decimal.of_ℕ 1000;
  balance = Decimal.of_ℕ 1000;
  equity = some (Decimal.of_ℕ 1000);
  margin_per_trade = Decimal.of_ℕ 50;
  leverage = 10;
  risk_percent = Decimal.of_ℕ 1;
  fee_rate = Decimal.literal 4 4;
  created_at = 1;
  updated_at = none;
  peak_equity = some (Decimal.of_ℕ 1000);
}

abbrev pub sample_position : Position
sample_position = record {
  id = 1;
  account_id = 1;
  signal_id = 1;
  symbol = codes "BTCUSDT";
  side = long;
  entry_price = Decimal.of_ℕ 100;
  quantity = Decimal.of_ℕ 2;
  position_size = Decimal.of_ℕ 200;
  margin = Decimal.of_ℕ 50;
  leverage = 10;
  stop_loss = Decimal.of_ℕ 95;
  take_profit = Decimal.of_ℕ 110;
  unrealized_pnl = none;
  status = Store.open_;
  opened_at = 2;
  closed_at = none;
}

-- One OPEN signal.
abbrev pub sample_db : Db
sample_db = record empty_db { signals = sample_signal ∷ []; next_signal = 2 }

-- The signal, closed at its take profit, with its open position.
abbrev pub ledger_db : Db
ledger_db = record sample_db {
  signals = record sample_signal { status = tp_hit } ∷ [];
  accounts = sample_account ∷ [];
  next_account = 2;
  positions = sample_position ∷ [];
  next_position = 2;
}

-- A LONG analysis with an ATR of 4 and a funding rate of 0.01%.
abbrev pub sample_analysis : SignalAnalysis
sample_analysis = record {
  decision = long;
  confidence = stated (number (Decimal.literal 725 1));
  reasoning = codes "trend";
  entry_price = some (number (Decimal.of_ℕ 100));
  stop_loss = some (number (Decimal.of_ℕ 95));
  take_profit = some (number (Decimal.of_ℕ 110));
  provider = codes "openai";
  model = codes "m";
  symbol = codes "btcusdt";
  timeframe = codes "1h";
  analysis_timestamp = codes "t";
  market_timestamp = codes "t";
  candle_close_price = some (number (Decimal.of_ℕ 101));
  temperature = none;
  atr = some (number (Decimal.of_ℕ 4));
  funding_rate = some (number (Decimal.literal 1 4));
  regime = up;
}
